-- ===== src/Hub/Peering/Silent.antt =====
-- A hub gives up on the peers that no longer answer, mesh-hub/src/peering.rs.
use mars_protocol.Common.{
  ℕ, zero, suc, ◌+◌, ◌<◌, ◌^◌, ◌-◌, ◌⊎◌, ◌≤◌, ◌≡◌, ◌≢◌, inl, inr, refl, true, false, Option, none,
  some, List, arith, Bool-cases, Option-cases, lookup, modify, keys_where, not, [], ◌∷◌, Distinct,
  Result, ok, err, Text, Bytes, leb, ◌==◌, nat_eq, eq_iff, list_eq, add_u32, ◌∙◌, ap, subst,
}
use mars_protocol.Core.External.{External}
use mars_protocol.Core.Frame.{Frame, msg_ping, msg_pong}
use mars_protocol.Dht.Client.{TransportError}
use mars_protocol.Hub.Network.{SocketAddr}
use mars_protocol.Hub.Peering.{
  PeerState, PeerManager, Network, PeerCodec, is_disconnected, failed_peer, request_over,
  request_peer, judge, check_all, health_check,
}
use mars_protocol.Hub.Peering.Valid.{PeersAreValid, health_check-PeersAreValid}
use mars_protocol.Hub.Peering.Health.{ping_of, health_check-judges}

-- no PING is answered by a PONG
abbrev pub IsSilent : {C W : Type 0} → Network W C → Type 0
IsSilent {C} {W} net =
    (w : W) (c : C) (body : Bytes) (f : Frame)
    → (net.send_request w c msg_ping body).0 ≡ ok f
    → f.msg_type ≢ msg_pong

module _ (x : External) (parse : Text → Result Text SocketAddr) {C W : Type 0} (net : Network W C)
    (codec : PeerCodec) where
  -- `n` health checks in a row
  unfoldable pub check_times : ℕ → PeerManager C → W → PeerManager C × W
  check_times zero m w = (m, w)
  check_times (suc n) m w = let (m1, w1) = health_check x parse net codec m w in check_times n m1 w1

  judge_of :
      (r : Result TransportError Frame) (now : ℕ) (p : PeerState C)
      → ((f : Frame) → r ≡ ok f → f.msg_type ≢ msg_pong)
      → judge x parse net codec (some r) now p ≡ failed_peer p
  unfolding judge
  judge_of (err e) now p quiet = refl
  judge_of (ok f) now p quiet = elim (Bool-cases (f.msg_type == msg_pong)) [
    | inl pong ↦ absurd (quiet f refl ((eq_iff f.msg_type msg_pong).0 pong))
    | inr other ↦ rw other refl
  ]

  judge-silent :
      (link : Option C) (w : W) (p : PeerState C) (body : Bytes) (now : ℕ)
      → IsSilent net
      → judge x parse net codec (request_over net link w msg_ping body).0 now p ≡ failed_peer p
  unfolding judge
  judge-silent none w p body now quiet = refl
  judge-silent (some c) w p body now quiet =
      judge_of (net.send_request w c msg_ping body).0 now p (quiet w c body)

  -- disconnected, or at `n` failures at least
  abbrev Falling : ℕ → PeerState C → Type 0
  Falling n p =
      (is_disconnected p.status ≡ true)
      ⊎ ((is_disconnected p.status ≡ false)
          × (n ≤ p.consecutive_failures)
          × (p.consecutive_failures < 2 ^ 32 - 1))

  -- so after a failed check
  abbrev Failing : ℕ → PeerState C → Type 0
  Failing n p =
      (is_disconnected p.status ≡ true)
      ⊎ ((is_disconnected p.status ≡ false)
          × (n ≤ p.consecutive_failures)
          × (p.consecutive_failures < 5))

  Failing-Falling : (n : ℕ) (p : PeerState C) → Failing n p → Falling n p
  Failing-Falling n p (inl down) = inl down
  Failing-Falling n p (inr (up, low, high)) = inr (up, low, omega arith)

  failed_peer-Falling :
      (n : ℕ) (p : PeerState C)
      → is_disconnected p.status ≡ false
      → n ≤ p.consecutive_failures
      → p.consecutive_failures < 2 ^ 32 - 1
      → Failing (n + 1) (failed_peer p)
  unfolding failed_peer
  failed_peer-Falling n p up low high =
      elim (Bool-cases (leb 5 (add_u32 p.consecutive_failures 1))) [
        | inl many ↦ simp (many) (inl refl)
        | inr few ↦ elim (Bool-cases (leb 3 (add_u32 p.consecutive_failures 1))) [
          | inl some_failed ↦ simp (few, some_failed) (inr (refl, omega arith, ground arith))
          | inr ok_still ↦ simp (few, ok_still) (inr (up, omega arith, ground arith))
        ]
      ]

  check_all-ping :
      (m : PeerManager C) (w : W) (dids : List Text)
      → ping_of (check_all x parse net codec m w dids).0 ≡ ping_of m
  unfolding check_all
  check_all-ping m w [] = refl
  check_all-ping m w (key ∷ dids) = elim (Option-cases (codec.encode_ping (ping_of m))) [
    | inl unsent ↦ rw (check_all, unsent) (check_all-ping m w dids)
    | inr (body, sent) ↦
        let (result, w1) = request_peer net m.peers w key msg_ping body in
        let change = judge x parse net codec result (net.instant w1) in
        rw (check_all, sent)
          (check_all-ping (record m { peers = modify key change m.peers }) w1 dids)
  ]

  health_check-ping :
      (m : PeerManager C) (w : W) → ping_of (health_check x parse net codec m w).0 ≡ ping_of m
  unfolding health_check
  health_check-ping m w =
      check_all-ping m w (keys_where (λ p. not (is_disconnected p.status)) m.peers)

  health_check-Falling :
      (n : ℕ) (m : PeerManager C) (w : W) (k : Text) (p : PeerState C) (body : Bytes)
      → IsSilent net
      → codec.encode_ping (ping_of m) ≡ some body
      → Distinct m.peers
      → lookup k m.peers ≡ some p
      → Falling n p
      → (q : PeerState C) × (lookup k (health_check x parse net codec m w).0.peers ≡ some q)
        × Failing (n + 1) q
  health_check-Falling n m w k p body quiet sent d found (inl down) =
      (p, (health_check-judges x parse net codec m w k p body sent d found).1 down, inl down)
  health_check-Falling n m w k p body quiet sent d found (inr (up, low, high)) =
      let j = (health_check-judges x parse net codec m w k p body sent d found).0 up in
      (
        failed_peer p,
        j.judged ∙ ap some (judge-silent p.connection j.seen p body _ quiet),
        failed_peer-Falling n p up low high,
      )

  -- each check counts
  check_times-Failing :
      (r n : ℕ) (m : PeerManager C) (w : W) (k : Text) (p : PeerState C) (body : Bytes)
      → IsSilent net
      → codec.encode_ping (ping_of m) ≡ some body
      → PeersAreValid m.peers
      → lookup k m.peers ≡ some p
      → Failing n p
      → (q : PeerState C) × (lookup k (check_times r m w).0.peers ≡ some q) × Failing (n + r) q
  unfolding check_times
  check_times-Failing zero n m w k p body quiet sent v found h =
      (p, found, subst (λ i. Failing i p) (omega arith) h)
  check_times-Failing (suc r) n m w k p body quiet sent v found h =
      let (m1, w1) = health_check x parse net codec m w in
      let (q, kept, worse) =
        health_check-Falling n m w k p body quiet sent v.distinct found (Failing-Falling n p h) in
      let (last, there, end) =
        check_times-Failing r (n + 1) m1 w1 k q body quiet
          (ap codec.encode_ping (health_check-ping m w) ∙ sent)
          (health_check-PeersAreValid x parse net codec m w v) kept worse in
      (last, there, subst (λ i. Failing i last) (omega arith) end)

  -- five failures are too many
  Failing-five : (q : PeerState C) → Failing 5 q → is_disconnected q.status ≡ true
  Failing-five q (inl down) = down
  Failing-five q (inr (up, low, high)) = absurd (omega arith)

  -- If no PING is answered by a PONG, five health checks in a row leave every known peer
  -- disconnected, from any valid state, unless its count of failures is the last 32-bit number.
  pub health_check-gives_up :
      (m : PeerManager C) (w : W) (k : Text) (p : PeerState C) (body : Bytes)
      → IsSilent net
      → codec.encode_ping (ping_of m) ≡ some body
      → PeersAreValid m.peers
      → lookup k m.peers ≡ some p
      → p.consecutive_failures < 2 ^ 32 - 1
      → (q : PeerState C) × (lookup k (check_times 5 m w).0.peers ≡ some q)
        × (is_disconnected q.status ≡ true)
  unfolding check_times
  health_check-gives_up m w k p body quiet sent v found few =
      let (m1, w1) = health_check x parse net codec m w in
      let start : Falling 0 p = elim (Bool-cases (is_disconnected p.status)) [
        | inl down ↦ inl down
        | inr up ↦ inr (up, omega arith, few)
      ] in
      let (q, kept, worse) =
        health_check-Falling 0 m w k p body quiet sent v.distinct found start in
      let (last, there, end) =
        check_times-Failing 4 1 m1 w1 k q body quiet
          (ap codec.encode_ping (health_check-ping m w) ∙ sent)
          (health_check-PeersAreValid x parse net codec m w v) kept worse in
      (last, there, Failing-five last end)
