-- ===== src/Hub/Peering/Valid.antt =====
-- What is true of each peer of a hub, and that connecting, gossip and health checks keep it.
use mars_protocol.Common.{
  ℕ, ◌≤◌, ◌≡◌, inl, inr, refl, true, false, not, Option, none, some, List, [], ◌∷◌, arith,
  Bool-cases, Option-cases, HashMap, insert, modify, keys_where, AllEntries, AllEntries-insert,
  Distinct, insert-Distinct, modify-Distinct, NoRepeat, Elem, eq_iff, keys_where-NoRepeat,
  keys_where-passes, All-map, All-zip, subst, sym, AllEntries-modify, Result, ok, err, Text, leb,
  ◌==◌, list_eq, nat_eq, add_u32,
}
use mars_protocol.Core.External.{External}
use mars_protocol.Core.Frame.{Frame, msg_ping, msg_pong}
use mars_protocol.Core.Message.{NodeAddr}
use mars_protocol.Dht.Client.{TransportError}
use mars_protocol.Hub.Network.{SocketAddr}
use mars_protocol.Hub.Peering.{
  unhealthy, is_disconnected, PeerState, PeerManager, Network, PeerCodec, fresh_peer,
  unreached_peer, has_connection, alive_peer, failed_peer, request_peer, judge, check_all,
  health_check,
}

-- A peer that is not disconnected has its connection, and one is unhealthy at 3 or 4 failures only.
pub record PeerIsValid {C : Type 0} (p : PeerState C) : Type 0 where
  pub linked : is_disconnected p.status ≡ false → has_connection p ≡ true
  pub failing : p.status ≡ unhealthy → (3 ≤ p.consecutive_failures) × (p.consecutive_failures ≤ 4)

module _ {C : Type 0} where
  pub fresh_peer-PeerIsValid :
      (c : C) (addr : NodeAddr) (now : ℕ) → PeerIsValid (fresh_peer c addr now)
  fresh_peer-PeerIsValid c addr now = record { linked = λ h. refl; failing = λ h. cc }

  pub unreached_peer-PeerIsValid :
      (old : Option (PeerState C)) (addr : NodeAddr) (now : ℕ)
      → PeerIsValid (unreached_peer old addr now)
  unreached_peer-PeerIsValid none addr now = record { linked = λ h. cc; failing = λ h. cc }
  unreached_peer-PeerIsValid (some p) addr now = record { linked = λ h. cc; failing = λ h. cc }

  alive_peer-PeerIsValid :
      (now : ℕ) (p : PeerState C) → has_connection p ≡ true → PeerIsValid (alive_peer now p)
  alive_peer-PeerIsValid now p h = record { linked = λ _. h; failing = λ h. cc }

  failed_peer-PeerIsValid :
      (p : PeerState C)
      → is_disconnected p.status ≡ false
      → PeerIsValid p
      → PeerIsValid (failed_peer p)
  unfolding failed_peer
  failed_peer-PeerIsValid p up v =
      let here = v.linked up in
      let failures = add_u32 p.consecutive_failures 1 in
      elim (Bool-cases (leb 5 failures)) [
        | inl many ↦ simp (many) (record { linked = λ h. cc; failing = λ h. cc })
        | inr few ↦ elim (Bool-cases (leb 3 failures)) [
          | inl some_failed ↦
              simp (few, some_failed) (record { linked = λ _. here; failing = λ _. ground arith })
          | inr ok_still ↦
              simp (few, ok_still)
                (record { linked = λ _. here; failing = λ h. absurd (ground (arith, v.failing h)) })
        ]
      ]

pub record PeersAreValid {C : Type 0} (peers : HashMap Text (PeerState C)) : Type 0 where
  pub distinct : Distinct peers
  pub each : AllEntries (λ (k : Text) (p : PeerState C). PeerIsValid p) peers

-- valid, and not disconnected if a loop has still to check it
abbrev Pending : {C : Type 0} → List Text → Text → PeerState C → Type 0
Pending dids k p = (Elem k dids → is_disconnected p.status ≡ false) × PeerIsValid p

module _ {C : Type 0} where
  pub insert-PeersAreValid :
      (key : Text) (p : PeerState C) (peers : HashMap Text (PeerState C))
      → PeerIsValid p
      → PeersAreValid peers
      → PeersAreValid (insert key p peers)
  insert-PeersAreValid key p peers h v = record {
    distinct = insert-Distinct key p peers v.distinct;
    each = AllEntries-insert _ key p peers h v.each;
  }

module _ (x : External) (parse : Text → Result Text SocketAddr) {C W : Type 0} (net : Network W C)
    (codec : PeerCodec) where
  judge-PeerIsValid :
      (result : Option (Result TransportError Frame)) (now : ℕ) (p : PeerState C)
      → is_disconnected p.status ≡ false
      → PeerIsValid p
      → PeerIsValid (judge x parse net codec result now p)
  unfolding judge
  judge-PeerIsValid none now p up v = failed_peer-PeerIsValid p up v
  judge-PeerIsValid (some (err e)) now p up v = failed_peer-PeerIsValid p up v
  judge-PeerIsValid (some (ok response)) now p up v =
      elim (Bool-cases (response.msg_type == msg_pong)) [
        | inr other ↦ rw other (failed_peer-PeerIsValid p up v)
        | inl pong ↦ elim (Option-cases (codec.decode_pong response.body)) [
          | inl unread ↦ rw (pong, unread) v
          | inr (body, read) ↦ rw (pong, read) (alive_peer-PeerIsValid now p (v.linked up))
        ]
      ]

  judge-Pending :
      (key : Text) (dids : List Text) (peers : HashMap Text (PeerState C))
      (result : Option (Result TransportError Frame)) (now : ℕ)
      → (Elem key dids → ⊥)
      → AllEntries (Pending (key ∷ dids)) peers
      → AllEntries (Pending dids) (modify key (judge x parse net codec result now) peers)
  judge-Pending key dids peers result now fresh =
      AllEntries-modify _ _ key _ peers
        (λ j p v same.
          let e = (eq_iff j key).0 same in
          (
            λ later. absurd (fresh (subst (λ i. Elem i dids) e later)),
            judge-PeerIsValid result now p (v.0 (inl (sym e))) v.1,
          ))
        (λ j p v other. (λ later. v.0 (inr later), v.1))

  check_all-Pending :
      (m : PeerManager C) (w : W) (dids : List Text)
      → NoRepeat dids
      → AllEntries (Pending dids) m.peers
      → AllEntries (Pending []) (check_all x parse net codec m w dids).0.peers
  unfolding check_all
  check_all-Pending m w [] fresh v = v
  check_all-Pending m w (key ∷ dids) fresh v =
      elim (Option-cases
        (codec.encode_ping (record { sender = m.hub_identity; sender_addr = m.hub_addr }))) [
          | inl unsent ↦
              rw (check_all, unsent)
                (check_all-Pending m w dids fresh.1
                  (All-map _ m.peers (λ e v. (λ later. v.0 (inr later), v.1)) v))
          | inr (body, sent) ↦
              let (result, w1) = request_peer net m.peers w key msg_ping body in
              let change = judge x parse net codec result (net.instant w1) in
              rw (check_all, sent)
                (check_all-Pending (record m { peers = modify key change m.peers }) w1 dids fresh.1
                  (judge-Pending key dids m.peers result (net.instant w1) fresh.0 v))
        ]

  check_all-Distinct :
      (m : PeerManager C) (w : W) (dids : List Text)
      → Distinct m.peers
      → Distinct (check_all x parse net codec m w dids).0.peers
  unfolding check_all
  check_all-Distinct m w [] d = d
  check_all-Distinct m w (key ∷ dids) d =
      elim (Option-cases
        (codec.encode_ping (record { sender = m.hub_identity; sender_addr = m.hub_addr }))) [
          | inl unsent ↦ rw (check_all, unsent) (check_all-Distinct m w dids d)
          | inr (body, sent) ↦
              let (result, w1) = request_peer net m.peers w key msg_ping body in
              let change = judge x parse net codec result (net.instant w1) in
              rw (check_all, sent)
                (check_all-Distinct (record m { peers = modify key change m.peers }) w1 dids
                  (modify-Distinct key change m.peers d))
        ]

  pub health_check-PeersAreValid :
      (m : PeerManager C) (w : W)
      → PeersAreValid m.peers
      → PeersAreValid (health_check x parse net codec m w).0.peers
  unfolding health_check
  health_check-PeersAreValid m w v =
      let up = λ (p : PeerState C). not (is_disconnected p.status) in
      let dids = keys_where up m.peers in
      let pending =
        All-zip _ _ m.peers
          (All-map _ m.peers (λ e h later. ground (arith, h later))
            (keys_where-passes up m.peers v.distinct))
          v.each in
      record {
        distinct = check_all-Distinct m w dids v.distinct;
        each =
            All-map _ _ (λ e h. h.1)
              (check_all-Pending m w dids (keys_where-NoRepeat up m.peers v.distinct) pending);
      }
