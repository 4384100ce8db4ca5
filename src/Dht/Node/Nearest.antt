-- ===== src/Dht/Node/Nearest.antt =====
-- What a node of mesh-dht/src/node.rs answers to FIND_NODE.
use mars_protocol.Common.{
  ℕ, ◌≤◌, ◌≡◌, ◌⊎◌, refl, sym, subst, List, [], ◌∷◌, ◌++◌, inl, inr, any, ltb, length,
  length-append, ltb_lt, Bool, true, Bool-cases, ◌==◌, eq_iff, arith,
}
use mars_protocol.Core.External.{External, HashLaws}
use mars_protocol.Core.Hash.{Hash}
use mars_protocol.Core.Identity.{identity_eq}
use mars_protocol.Core.Message.{NodeInfo, FindNode, FindNodeResult}
use mars_protocol.Dht.Distance.Metric.{IsKey}
use mars_protocol.Dht.Routing.{add_node, closest_nodes, bucket_size}
use mars_protocol.Dht.Routing.Closest.{AreClosest, closest_nodes-AreClosest}
use mars_protocol.Dht.Node.Interface.{DescriptorStorage}
use mars_protocol.Dht.Node.{DhtNode, update_routing_table, handle_find_node}

module _ (x : External) (laws : HashLaws x) {S : Type 0} (storage : DescriptorStorage S) where
  abbrev self_info : DhtNode S → ℕ → NodeInfo
  self_info n now = record { identity = n.own_identity; addr = n.addr; last_seen = now }

  abbrev has_self : DhtNode S → List NodeInfo → Bool
  has_self n nodes = any (λ e. e.identity == n.own_identity) nodes

  -- the node once the sender was offered to its table
  abbrev pub offered : DhtNode S → FindNode → ℕ → DhtNode S
  offered n req seen = record n {
    routing_table =
        (add_node x n.routing_table
          (record { identity = req.sender; addr = req.sender_addr; last_seen = seen })).0;
  }

  -- the answer of a node with such a table
  pub record IsFindNodeAnswer (n : DhtNode S) (target : Hash) (now : ℕ) (nodes : List NodeInfo)
      : Type 0 where
    pub closest : List NodeInfo
    pub are_closest : AreClosest x laws n.routing_table target bucket_size closest
    pub answer : (nodes ≡ closest) ⊎ (nodes ≡ closest ++ self_info n now ∷ [])
    pub few : length nodes ≤ bucket_size
    pub has_self :
        (any (λ e. e.identity == n.own_identity) nodes ≡ true) ⊎ (length nodes ≡ bucket_size)

  any_last :
      (n : DhtNode S) (now : ℕ) (es : List NodeInfo)
      → has_self n (es ++ self_info n now ∷ []) ≡ true
  any_last n now [] = ground (arith, eq_iff n.own_identity n.own_identity)
  any_last n now (e ∷ es) = ground (arith, any_last n now es)

  -- FIND_NODE with a target of 32 bytes offers the sender to the routing table, and changes
  -- nothing else of the node; it is answered by the 20 nodes of that table nearest to the target,
  -- nearest first, and by the node itself behind them where there is room; at most 20 nodes are
  -- returned, and the node is among them or there are 20.
  pub handle_find_node-IsFindNodeAnswer :
      (n : DhtNode S) (req : FindNode) (seen now : ℕ)
      → IsKey req.target
      → let r = handle_find_node x storage n req seen now in
        let m = offered n req seen in (r.1 ≡ m) × IsFindNodeAnswer m req.target now r.0.nodes
  unfolding handle_find_node update_routing_table
  handle_find_node-IsFindNodeAnswer n req seen now key =
      let m = update_routing_table x storage n req.sender req.sender_addr seen in
      let nodes = closest_nodes x m.routing_table req.target bucket_size in
      let c = closest_nodes-AreClosest x laws m.routing_table req.target bucket_size key in
      let claim = λ (r : FindNodeResult × DhtNode S).
        (r.1 ≡ offered n req seen)
        × IsFindNodeAnswer (offered n req seen) req.target now r.0.nodes in
      elim (Bool-cases (has_self m nodes)) [
        | inl there ↦
            let e : handle_find_node x storage n req seen now ≡ (record { nodes = nodes }, m) =
              rw (handle_find_node, there) refl in
            subst claim (sym e) (
              refl,
              record {
                closest = nodes;
                are_closest = c;
                answer = inl refl;
                few = omega (arith, c.size);
                has_self = inl there;
              },
            )
        | inr away ↦ elim (Bool-cases (ltb (length nodes) bucket_size)) [
          | inl room ↦
              let e : handle_find_node x storage n req seen now
                  ≡ (record { nodes = nodes ++ self_info m now ∷ [] }, m) =
                rw (handle_find_node, away, room) refl in
              subst claim (sym e) (
                refl,
                record {
                  closest = nodes;
                  are_closest = c;
                  answer = inr refl;
                  few = omega (arith, length-append nodes (self_info m now ∷ []), ltb_lt _ _ room);
                  has_self = inl (any_last m now nodes);
                },
              )
          | inr full ↦
              let e : handle_find_node x storage n req seen now ≡ (record { nodes = nodes }, m) =
                rw (handle_find_node, away, full) refl in
              subst claim (sym e) (
                refl,
                record {
                  closest = nodes;
                  are_closest = c;
                  answer = inl refl;
                  few = omega (arith, c.size);
                  has_self = inr (ground (arith, c.size));
                },
              )
        ]
      ]
