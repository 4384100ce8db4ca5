-- ===== src/Hub/Peering/Keeps.antt =====
-- Connecting, gossip and the tasks of mesh-hub/src/peering.rs keep every peer valid.
use mars_protocol.Common.{
  ℕ, ◌≡◌, inl, inr, true, ◌&&◌, none, List, [], ◌∷◌, arith, Bool-cases, Option-cases, Result-cases,
  HashMap, lookup, modify, keys_where, AllEntries, AllEntries-modify, modify-Distinct, Result, Text,
  leb, ltb, list_eq, nat_eq, take, is_empty, Elem, All-map, All-zip, sym, ap, eq_iff, Distinct,
  keys_where-passes, &&_iff,
}
use mars_protocol.Core.External.{External}
use mars_protocol.Core.Identity.{Identity, did}
use mars_protocol.Core.Descriptor.{Descriptor}
use mars_protocol.Core.Message.{NodeAddr}
use mars_protocol.Dht.Node.{DhtNode}
use mars_protocol.Hub.Network.{SocketAddr, validate_outbound_addr}
use mars_protocol.Hub.Peering.{
  HubMetadata, PeerState, PeerManager, Network, PeerCodec, connected_peer_count, already_connected,
  has_connection, is_connected, is_disconnected, dial, connect_to_peer, gossip_to, add_failures,
  gossip_all, gossip_round, discover_peers_from_descriptors, max_gossip_batch,
}
use mars_protocol.Hub.Peering.Tasks.{
  HubStorage, connect_all, run_discovery, run_gossip_round, routing_key_infrastructure_hub,
}
use mars_protocol.Hub.Peering.Valid.{
  PeerIsValid, PeersAreValid, insert-PeersAreValid, fresh_peer-PeerIsValid,
  unreached_peer-PeerIsValid,
}

-- valid, and connected if a loop has still to tell it
abbrev Told : {C : Type 0} → List Text → Text → PeerState C → Type 0
Told dids k p = (Elem k dids → is_connected p.status ≡ true) × PeerIsValid p

module _ (x : External) (parse : Text → Result Text SocketAddr) {C W : Type 0} (net : Network W C)
    (codec : PeerCodec) where
  dial-PeersAreValid :
      (m : PeerManager C) (w : W) (key : Text) (addr : NodeAddr) (socket_addr : SocketAddr)
      → PeersAreValid m.peers
      → PeersAreValid (dial x parse net codec m w key addr socket_addr).1.peers
  unfolding dial
  dial-PeersAreValid m w key addr socket_addr v =
      let (r, w1) = net.connect w socket_addr in
      elim (Result-cases r) [
        | inl (c, linked) ↦
            rw (dial, linked)
              (insert-PeersAreValid key _ m.peers (fresh_peer-PeerIsValid c addr (net.instant w1))
                v)
        | inr (e, failed) ↦
            rw (dial, failed)
              (insert-PeersAreValid key _ m.peers
                (unreached_peer-PeerIsValid (lookup key m.peers) addr (net.instant w1)) v)
      ]

  pub connect_to_peer-PeersAreValid :
      (m : PeerManager C) (w : W) (peer : Identity) (addr : NodeAddr)
      → PeersAreValid m.peers
      → PeersAreValid (connect_to_peer x parse net codec m w peer addr).1.peers
  unfolding connect_to_peer
  connect_to_peer-PeersAreValid m w peer addr v =
      elim (Bool-cases (leb m.max_peers (connected_peer_count m.peers))) [
        | inl full ↦ rw full v
        | inr room ↦ elim (Bool-cases (already_connected (lookup (did x peer) m.peers))) [
          | inl old ↦ rw (room, old) v
          | inr new ↦
              elim (Result-cases (validate_outbound_addr parse addr.address m.outbound_allowlist)) [
                | inr (e, refused) ↦ rw (room, new, refused) v
                | inl (target, let_out) ↦
                    rw (room, new, let_out) (dial-PeersAreValid m w (did x peer) addr target v)
              ]
        ]
      ]

  add_failures-Told :
      (key : Text) (dids : List Text) (peers : HashMap Text (PeerState C)) (failures : ℕ)
      → AllEntries (Told (key ∷ dids)) peers
      → AllEntries (Told dids) (modify key (add_failures x parse net codec failures) peers)
  add_failures-Told key dids peers failures =
      AllEntries-modify _ _ key _ peers
        (λ j p v same.
          let here = v.0 (inl (sym ((eq_iff j key).0 same))) in
          (
            λ later. here,
            record {
              linked = v.1.linked;
              failing = λ sick. absurd (ground (arith, ap is_connected sick));
            },
          ))
        (λ j p v other. (λ later. v.0 (inr later), v.1))

  gossip_all-PeersAreValid :
      (m : PeerManager C) (w : W) (dids : List Text) (batch : List Descriptor)
      → Distinct m.peers
      → AllEntries (Told dids) m.peers
      → PeersAreValid (gossip_all x parse net codec m w dids batch).0.peers
  unfolding gossip_all
  gossip_all-PeersAreValid m w [] batch d v = record {
    distinct = d;
    each = All-map _ m.peers (λ e h. h.1) v;
  }
  gossip_all-PeersAreValid m w (key ∷ dids) batch d v =
      let (failures, w1) = gossip_to x parse net codec m w key batch 0 in
      let told = add_failures x parse net codec failures in
      elim (Bool-cases (ltb 0 failures)) [
        | inl lost ↦
            rw (gossip_all, lost)
              (gossip_all-PeersAreValid (record m { peers = modify key told m.peers }) w1 dids batch
                (modify-Distinct key told m.peers d)
                (add_failures-Told key dids m.peers failures v))
        | inr reached ↦
            rw (gossip_all, reached)
              (gossip_all-PeersAreValid m w1 dids batch d
                (All-map _ m.peers (λ e h. (λ later. h.0 (inr later), h.1)) v))
      ]

  pub gossip_round-PeersAreValid :
      (m : PeerManager C) (w : W) (descriptors : List Descriptor)
      → PeersAreValid m.peers
      → PeersAreValid (gossip_round x parse net codec m w descriptors).0.peers
  unfolding gossip_round
  gossip_round-PeersAreValid m w descriptors v =
      let batch = take max_gossip_batch descriptors in
      let open_to = λ (p : PeerState C). is_connected p.status && has_connection p in
      elim (Bool-cases (is_empty batch)) [
        | inl nothing ↦ rw nothing v
        | inr something ↦ rw something (
            gossip_all-PeersAreValid m w (keys_where open_to m.peers) batch v.distinct (
              All-zip _ _ m.peers
                (All-map _ m.peers (λ e h later. ((&&_iff _ _).0 (h later)).0)
                  (keys_where-passes open_to m.peers v.distinct))
                v.each))
      ]

  connect_all-PeersAreValid :
      (discovered : List (Identity × NodeAddr × HubMetadata)) (m : PeerManager C) (w : W)
      → PeersAreValid m.peers
      → PeersAreValid (connect_all x parse net codec discovered m w).0.peers
  unfolding connect_all
  connect_all-PeersAreValid [] m w v = v
  connect_all-PeersAreValid ((peer, addr, metadata) ∷ discovered) m w v =
      let (r, m1, w1) = connect_to_peer x parse net codec m w peer addr in
      let tried =
        connect_all-PeersAreValid discovered m1 w1
          (connect_to_peer-PeersAreValid m w peer addr v) in
      let passed_over = connect_all-PeersAreValid discovered m w v in
      elim (Option-cases (lookup (did x peer) m.peers)) [
        | inl new ↦ rw (connect_all, new) tried
        | inr (p, old) ↦ elim (Bool-cases (is_disconnected p.status)) [
          | inl down ↦ rw (connect_all, old, down) tried
          | inr up ↦ rw (connect_all, old, up) passed_over
        ]
      ]

  module _ {S : Type 0} (hub : HubStorage S) where
    pub run_discovery-PeersAreValid :
        (n : DhtNode S) (m : PeerManager C) (w : W)
        → PeersAreValid m.peers
        → PeersAreValid (run_discovery x parse net codec hub n m w).1.peers
    unfolding run_discovery
    run_discovery-PeersAreValid n m w v =
        let descriptors =
          (hub.storage.get_descriptors n.store (routing_key_infrastructure_hub x) none
            (net.now_micros w)).0 in
        elim (Bool-cases (is_empty descriptors)) [
          | inl nothing ↦ rw nothing v
          | inr something ↦ rw something (
              connect_all-PeersAreValid
                (discover_peers_from_descriptors x parse net codec m descriptors) m w v)
        ]

    pub run_gossip_round-PeersAreValid :
        (n : DhtNode S) (m : PeerManager C) (w : W)
        → PeersAreValid m.peers
        → PeersAreValid (run_gossip_round x parse net codec hub n m w).0.peers
    unfolding run_gossip_round
    run_gossip_round-PeersAreValid n m w v =
        elim (Bool-cases (is_empty (hub.all_descriptors n.store))) [
          | inl nothing ↦ rw nothing v
          | inr something ↦
              rw something (gossip_round-PeersAreValid m w (hub.all_descriptors n.store) v)
        ]
