-- ===== src/Hub/Peering/Health.antt =====
-- `health_check` of mesh-hub/src/peering.rs judges each peer once, by the answer to its PING.
use mars_protocol.Common.{
  ◌≡◌, inl, inr, refl, Bool, true, false, not, Option, some, List, [], ◌∷◌, Elem, NoRepeat, arith,
  Bool-cases, Option-cases, HashMap, lookup, modify, lookup-modify, keys_where, Distinct,
  Elem-keys_where, keys_where-NoRepeat, lookup_of_Elem, Result, Text, Bytes, ◌==◌, eq_iff, list_eq,
  nat_eq, sym, ap, subst, ◌∙◌,
}
use mars_protocol.Core.External.{External}
use mars_protocol.Core.Frame.{Frame, msg_ping}
use mars_protocol.Core.Message.{Ping}
use mars_protocol.Dht.Client.{TransportError}
use mars_protocol.Hub.Network.{SocketAddr}
use mars_protocol.Hub.Peering.{
  PeerState, PeerManager, Network, PeerCodec, is_disconnected, request_over, request_peer, judge,
  check_all, health_check,
}

-- the PING that a hub sends
abbrev pub ping_of : {C : Type 0} → PeerManager C → Ping
ping_of m = record { sender = m.hub_identity; sender_addr = m.hub_addr }

lookup_of_keys_where :
    {V : Type 0} (k : Text) (test : V → Bool) (m : HashMap Text V)
    → Distinct m
    → Elem k (keys_where test m)
    → (v : V) × (lookup k m ≡ some v) × (test v ≡ true)
lookup_of_keys_where k test m d h =
    let (v, here, t) = Elem-keys_where k test m h in (v, lookup_of_Elem k v m d here, t)

Elem_of_lookup :
    {V : Type 0} (k : Text) (v : V) (test : V → Bool) (m : HashMap Text V)
    → lookup k m ≡ some v
    → test v ≡ true
    → Elem k (keys_where test m)
unfolding lookup
Elem_of_lookup k v test [] found t = absurd cc
Elem_of_lookup k v test ((j, u) ∷ m) found t = elim (Bool-cases (j == k)) [
  | inl same ↦
      let e : u ≡ v = ground arith in
      rw (subst (λ a. test a ≡ true) (sym e) t) (inl ((eq_iff j k).0 same))
  | inr other ↦
      let below = Elem_of_lookup k v test m (ground arith) t in
      elim (Bool-cases (test u)) [ inl kept ↦ rw kept (inr below) | inr out ↦ rw out below ]
]

request_peer_of :
    {C W : Type 0} (net : Network W C) (peers : HashMap Text (PeerState C)) (w : W) (key : Text)
    (p : PeerState C) (body : Bytes)
    → lookup key peers ≡ some p
    → request_peer net peers w key msg_ping body ≡ request_over net p.connection w msg_ping body
unfolding request_peer
request_peer_of net peers w key p body found = rw (request_peer, found)

module _ (x : External) (parse : Text → Result Text SocketAddr) {C W : Type 0} (net : Network W C)
    (codec : PeerCodec) where
  check_all-other :
      (m : PeerManager C) (w : W) (dids : List Text) (k : Text)
      → (Elem k dids → ⊥)
      → lookup k (check_all x parse net codec m w dids).0.peers ≡ lookup k m.peers
  unfolding check_all
  check_all-other m w [] k out = refl
  check_all-other m w (key ∷ dids) k out = elim (Option-cases (codec.encode_ping (ping_of m))) [
    | inl unsent ↦ rw (check_all, unsent) (check_all-other m w dids k (λ h. out (inr h)))
    | inr (body, sent) ↦
        let (result, w1) = request_peer net m.peers w key msg_ping body in
        let change = judge x parse net codec result (net.instant w1) in
        let next : PeerManager C = record m { peers = modify key change m.peers } in
        let apart : (key == k) ≡ false = elim (Bool-cases (key == k)) [
          | inl same ↦ absurd (out (inl ((eq_iff key k).0 same)))
          | inr other ↦ other
        ] in
        rw (check_all, sent)
          (check_all-other next w1 dids k (λ h. out (inr h))
            ∙ (lookup-modify key k change m.peers ∙ ground arith))
  ]

  -- the peer behind its PING
  pub record IsJudged (p : PeerState C) (body : Bytes) (after : Option (PeerState C)) : Type 0 where
    pub seen : W
    pub judged :
        after
        ≡ some (
            judge x parse net codec
              (request_over net p.connection seen msg_ping body).0
              (net.instant (request_over net p.connection seen msg_ping body).1)
              p)

  check_all-judges :
      (m : PeerManager C) (w : W) (dids : List Text) (k : Text) (p : PeerState C) (body : Bytes)
      → codec.encode_ping (ping_of m) ≡ some body
      → lookup k m.peers ≡ some p
      → NoRepeat dids
      → Elem k dids
      → IsJudged p body (lookup k (check_all x parse net codec m w dids).0.peers)
  unfolding check_all
  check_all-judges m w [] k p body sent found fresh h = elim h [ ]
  check_all-judges m w (key ∷ dids) k p body sent found fresh (inl same) =
      let (result, w1) = request_peer net m.peers w key msg_ping body in
      let change = judge x parse net codec result (net.instant w1) in
      let next : PeerManager C = record m { peers = modify key change m.peers } in
      let hit : (key == k) ≡ true = (eq_iff key k).1 same in
      let asked : request_peer net m.peers w key msg_ping body
          ≡ request_over net p.connection w msg_ping body =
        request_peer_of net m.peers w key p body
          (subst (λ i. lookup i m.peers ≡ some p) (sym same) found) in
      let kept : lookup k next.peers ≡ some (change p) =
        lookup-modify key k change m.peers ∙ rw (hit, found) in
      record {
        seen = w;
        judged =
            rw (check_all, sent)
              (check_all-other next w1 dids k (λ h. fresh.0 (subst (λ i. Elem i dids) (sym same) h))
                ∙ (kept
                    ∙ ap
                        (λ (a : Option (Result TransportError Frame) × W).
                          some (judge x parse net codec a.0 (net.instant a.1) p))
                        asked));
      }
  check_all-judges m w (key ∷ dids) k p body sent found fresh (inr h) =
      let (result, w1) = request_peer net m.peers w key msg_ping body in
      let change = judge x parse net codec result (net.instant w1) in
      let next : PeerManager C = record m { peers = modify key change m.peers } in
      let apart : (key == k) ≡ false = elim (Bool-cases (key == k)) [
        | inl same ↦ absurd (fresh.0 (subst (λ i. Elem i dids) (sym ((eq_iff key k).0 same)) h))
        | inr other ↦ other
      ] in
      rw (check_all, sent)
        (check_all-judges next w1 dids k p body sent
          (lookup-modify key k change m.peers ∙ ground arith) fresh.1 h)

  -- If the PING has a CBOR form, a health check judges each peer that is not disconnected exactly
  -- once, by the answer on its own connection at some state of the network, and leaves a
  -- disconnected peer as it is, if no DID has two peers.
  pub health_check-judges :
      (m : PeerManager C) (w : W) (k : Text) (p : PeerState C) (body : Bytes)
      → codec.encode_ping (ping_of m) ≡ some body
      → Distinct m.peers
      → lookup k m.peers ≡ some p
      → (is_disconnected p.status ≡ false
          → IsJudged p body (lookup k (health_check x parse net codec m w).0.peers))
        × (is_disconnected p.status ≡ true
            → lookup k (health_check x parse net codec m w).0.peers ≡ some p)
  unfolding health_check
  health_check-judges m w k p body sent d found =
      let up = λ (q : PeerState C). not (is_disconnected q.status) in
      (
        λ h.
            check_all-judges m w (keys_where up m.peers) k p body sent found
              (keys_where-NoRepeat up m.peers d)
              (Elem_of_lookup k p up m.peers found (ground arith)),
        λ h.
            check_all-other m w (keys_where up m.peers) k (λ listed.
              let (q, here, t) = lookup_of_keys_where k up m.peers d listed in ground arith)
            ∙ found,
      )
