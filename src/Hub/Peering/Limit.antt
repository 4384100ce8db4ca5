-- ===== src/Hub/Peering/Limit.antt =====
-- The limit on the connections that `connect_to_peer` of mesh-hub/src/peering.rs opens.
use mars_protocol.Common.{
  ℕ, ◌+◌, ◌≤◌, ◌≡◌, inl, inr, refl, false, Option, none, some, [], ◌∷◌, arith, Bool-cases,
  Result-cases, HashMap, lookup, insert, Result, Text, leb, list_eq, nat_eq, if◌then◌else◌,
}
use mars_protocol.Core.External.{External}
use mars_protocol.Core.Identity.{Identity, did}
use mars_protocol.Core.Message.{NodeAddr}
use mars_protocol.Hub.Network.{SocketAddr, validate_outbound_addr}
use mars_protocol.Hub.Peering.{
  PeerState, PeerManager, Network, PeerCodec, is_connected, connected_peer_count, fresh_peer,
  unreached_peer, already_connected, dial, connect_to_peer,
}

-- at most one more peer than before is connected, and none if the new state is not
module _ {C : Type 0} where
  count-insert :
      (key : Text) (p : PeerState C) (peers : HashMap Text (PeerState C))
      → connected_peer_count (insert key p peers)
        ≤ connected_peer_count peers + (if is_connected p.status then 1 else 0)
  unfolding connected_peer_count insert
  count-insert key p [] = ground arith
  count-insert key p ((k, old) ∷ peers) = ground (arith, count-insert key p peers)

  unreached_peer-down :
      (old : Option (PeerState C)) (addr : NodeAddr) (now : ℕ)
      → is_connected (unreached_peer old addr now).status ≡ false
  unreached_peer-down none addr now = refl
  unreached_peer-down (some p) addr now = refl

module _ (x : External) (parse : Text → Result Text SocketAddr) {C W : Type 0} (net : Network W C)
    (codec : PeerCodec) where
  dial-count :
      (m : PeerManager C) (w : W) (key : Text) (addr : NodeAddr) (target : SocketAddr)
      → connected_peer_count (dial x parse net codec m w key addr target).1.peers
        ≤ connected_peer_count m.peers + 1
  unfolding dial
  dial-count m w key addr target =
      let (r, w1) = net.connect w target in
      elim (Result-cases r) [
        | inl (c, linked) ↦
            rw (dial, linked) (count-insert key (fresh_peer c addr (net.instant w1)) m.peers)
        | inr (e, failed) ↦
            let gone = unreached_peer (lookup key m.peers) addr (net.instant w1) in
            rw (dial, failed)
              (ground (
                arith,
                unreached_peer-down (lookup key m.peers) addr (net.instant w1),
                count-insert key gone m.peers,
              ))
      ]

  -- As long as no more peers are connected than the maximum, connect_to_peer keeps it so, whatever
  -- the network does.
  pub connect_to_peer-limit :
      (m : PeerManager C) (w : W) (peer : Identity) (addr : NodeAddr)
      → connected_peer_count m.peers ≤ m.max_peers
      → connected_peer_count (connect_to_peer x parse net codec m w peer addr).1.peers ≤ m.max_peers
  unfolding connect_to_peer
  connect_to_peer-limit m w peer addr h =
      elim (Bool-cases (leb m.max_peers (connected_peer_count m.peers))) [
        | inl full ↦ rw full h
        | inr room ↦ elim (Bool-cases (already_connected (lookup (did x peer) m.peers))) [
          | inl old ↦ rw (room, old) h
          | inr new ↦
              elim (Result-cases (validate_outbound_addr parse addr.address m.outbound_allowlist)) [
                | inr (e, refused) ↦ rw (room, new, refused) h
                | inl (target, let_out) ↦
                    rw (room, new, let_out)
                      (ground (arith, dial-count m w (did x peer) addr target))
              ]
        ]
      ]
