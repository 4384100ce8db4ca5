-- ===== src/Dht/Node/Keeps.antt =====
-- The invariant of a node, and that the four handlers of mesh-dht/src/node.rs keep it on every branch.
use mars_protocol.Common.{
  Result-cases, ℕ, ◌≡◌, refl, ◌∙◌, Option-cases, inl, inr, not, ◌&&◌, any, ltb, length, Bool-cases,
  ◌==◌,
}
use mars_protocol.Core.External.{External}
use mars_protocol.Core.Identity.{Identity, Keypair, identity, node_id, identity_eq}
use mars_protocol.Core.Descriptor.{Descriptor}
use mars_protocol.Core.Message.{NodeAddr, NodeInfo, Ping, Store, FindNode, FindValue}
use mars_protocol.Dht.Routing.{RoutingTable, add_node, bucket_for, closest_nodes, bucket_size}
use mars_protocol.Dht.Routing
use mars_protocol.Dht.Routing.Invariant
use mars_protocol.Dht.Node.Interface.{DescriptorStorage, StorageLaws}
use mars_protocol.Dht.Node.{
  DhtNode, DhtConfig, with_store, update_routing_table, handle_ping, store_and_ack, handle_store,
  handle_find_node, handle_find_value, answer_find_value,
}

module _ (x : External) {S : Type 0} (storage : DescriptorStorage S) (Valid : S → Type 0) where
  -- the identity is that of the key pair, the table is a valid one about the node itself, and so is
  -- the storage
  pub record NodeIsValid (n : DhtNode S) : Type 0 where
    pub own_identity : n.own_identity ≡ identity x n.keypair
    pub own_id : n.own_id ≡ node_id x n.own_identity
    pub local : n.routing_table.local_id ≡ n.own_id
    pub table : Invariant.IsValid x n.routing_table
    pub store : Valid n.store

  -- A new node over a valid storage is valid.
  pub with_store-NodeIsValid :
      (k : Keypair) (addr : NodeAddr) (config : DhtConfig) (s : S)
      → Valid s
      → NodeIsValid (with_store x storage k addr config s)
  unfolding with_store
  with_store-NodeIsValid k addr config s v = record {
    own_identity = refl;
    own_id = refl;
    local = unfold Routing.new in refl;
    table = Invariant.new-IsValid x _;
    store = v;
  }

  pub add_node-local : (t : RoutingTable) (e : NodeInfo) → (add_node x t e).0.local_id ≡ t.local_id
  unfolding add_node
  add_node-local t e = elim (Option-cases (bucket_for t (node_id x e.identity))) [
    | inl self ↦ rw (add_node, self) refl
    | inr (i, here) ↦ rw (add_node, here) refl
  ]

  pub update-NodeIsValid :
      (n : DhtNode S) (sender : Identity) (addr : NodeAddr) (now : ℕ)
      → NodeIsValid n
      → NodeIsValid (update_routing_table x storage n sender addr now)
  unfolding update_routing_table
  update-NodeIsValid n sender addr now v = record {
    own_identity = v.own_identity;
    own_id = v.own_id;
    local = add_node-local n.routing_table _ ∙ v.local;
    table = Invariant.add_node-IsValid x n.routing_table _ v.table;
    store = v.store;
  }

  module _ (laws : StorageLaws x storage Valid) (n : DhtNode S) (v : NodeIsValid n) where
    store_and_ack-NodeIsValid :
        (m : DhtNode S) (d : Descriptor) (now : ℕ)
        → NodeIsValid m
        → NodeIsValid (store_and_ack x storage m d now).1
    unfolding store_and_ack
    store_and_ack-NodeIsValid m d now w =
        let after : NodeIsValid (record m { store = (storage.store_descriptor m.store d now).1 }) =
          record {
            own_identity = w.own_identity;
            own_id = w.own_id;
            local = w.local;
            table = w.table;
            store = laws.store-Valid m.store d now w.store;
          } in
        elim (Result-cases (storage.store_descriptor m.store d now).0) [
          | inl (u, good) ↦ rw (store_and_ack, good) after
          | inr (e, bad) ↦ rw (store_and_ack, bad) after
        ]

    handle_store-NodeIsValid :
        (req : Store) (seen now : ℕ) → NodeIsValid (handle_store x storage n req seen now).1
    unfolding handle_store
    handle_store-NodeIsValid req seen now =
        let m = update_routing_table x storage n req.sender req.sender_addr seen in
        let w = update-NodeIsValid n req.sender req.sender_addr seen v in
        elim (Option-cases m.hooks) [
          | inl plain ↦ rw (handle_store, plain) (store_and_ack-NodeIsValid m req.descriptor now w)
          | inr (h, hooked) ↦ elim (Result-cases (h.pre_store req.descriptor)) [
            | inl (u, good) ↦
                rw (handle_store, hooked, good) (store_and_ack-NodeIsValid m req.descriptor now w)
            | inr (e, bad) ↦ rw (handle_store, hooked, bad) w
          ]
        ]

    handle_find_node-NodeIsValid :
        (req : FindNode) (seen now : ℕ) → NodeIsValid (handle_find_node x storage n req seen now).1
    unfolding handle_find_node
    handle_find_node-NodeIsValid req seen now =
        let m = update_routing_table x storage n req.sender req.sender_addr seen in
        let w = update-NodeIsValid n req.sender req.sender_addr seen v in
        let nodes = closest_nodes x m.routing_table req.target bucket_size in
        elim (Bool-cases
          (not (any (λ e. e.identity == m.own_identity) nodes) && ltb (length nodes) bucket_size)) [
            | inl room ↦ rw (handle_find_node, room) w
            | inr full ↦ rw (handle_find_node, full) w
          ]

    handle_find_value-NodeIsValid :
        (req : FindValue) (seen now : ℕ)
        → NodeIsValid (handle_find_value x storage n req seen now).1
    unfolding handle_find_value
    handle_find_value-NodeIsValid req seen now =
        let m = update_routing_table x storage n req.sender req.sender_addr seen in
        let w = update-NodeIsValid n req.sender req.sender_addr seen v in
        let answered : NodeIsValid (answer_find_value x storage m req now).1 = record {
          own_identity = w.own_identity;
          own_id = w.own_id;
          local = w.local;
          table = w.table;
          store = laws.get-Valid m.store req.key req.filters now w.store;
        } in
        elim (Option-cases m.hooks) [
          | inl plain ↦ rw (handle_find_value, plain) answered
          | inr (h, hooked) ↦ elim (Result-cases (h.pre_query req.key)) [
            | inl (u, good) ↦ rw (handle_find_value, hooked, good) answered
            | inr (e, bad) ↦ rw (handle_find_value, hooked, bad) w
          ]
        ]

    -- Over a storage that keeps its laws, each of the four requests leaves a valid node valid, on
    -- every branch, refusals by a hook or by the store included.
    pub handlers-NodeIsValid :
        ((req : Ping) (now : ℕ) → NodeIsValid (handle_ping x storage n req now).1)
        × ((req : Store) (seen now : ℕ) → NodeIsValid (handle_store x storage n req seen now).1)
        × ((req : FindNode) (seen now : ℕ)
            → NodeIsValid (handle_find_node x storage n req seen now).1)
        × ((req : FindValue) (seen now : ℕ)
            → NodeIsValid (handle_find_value x storage n req seen now).1)
    unfolding handle_ping
    handlers-NodeIsValid = (
      λ req now. update-NodeIsValid n req.sender req.sender_addr now v,
      handle_store-NodeIsValid,
      handle_find_node-NodeIsValid,
      handle_find_value-NodeIsValid,
    )
