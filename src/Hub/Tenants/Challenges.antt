-- ===== src/Hub/Tenants/Challenges.antt =====
-- A challenge of mesh-hub/src/tenant.rs is used once.
use mars_protocol.Common.{
  ◌≡◌, ◌≢◌, inl, inr, refl, sym, ◌∙◌, subst, true, Bool-cases, Option-cases, none, some, List, [],
  ◌∷◌, find, if◌then◌else◌, ◌==◌, eq_iff, nat_eq, list_eq, arith, Result, ok, err, Text,
}
use mars_protocol.Hub.Auth.{DidAuthChallenge}
use mars_protocol.Hub.Tenants.{
  TenantManager, ChallengeRow, row_of, get_challenge, mark_consumed, consume_challenge,
  ConsumeError, already_consumed,
}

find-mark_consumed :
    (id probe : Text) (rs : List ChallengeRow)
    → find (λ r. r.challenge.id == probe) (mark_consumed id rs)
      ≡ elim (find (λ r. r.challenge.id == probe) rs) [
        | none ↦ none
        | some r ↦ some (if id == probe then record r { consumed = true } else r)
      ]
unfolding mark_consumed
find-mark_consumed id probe [] = refl
find-mark_consumed id probe (r ∷ rs) = ground (
  arith,
  find-mark_consumed id probe rs,
  eq_iff r.challenge.id id,
  eq_iff r.challenge.id probe,
  eq_iff id probe,
)

used_up-get :
    (m : TenantManager) (id : Text) (r : ChallengeRow)
    → row_of m id ≡ some r
    → r.consumed ≡ true
    → get_challenge m id ≡ none
unfolding get_challenge
used_up-get m id r found used = rw (get_challenge, found, used) refl

used_up-consume :
    (m : TenantManager) (id : Text) (r : ChallengeRow)
    → row_of m id ≡ some r
    → r.consumed ≡ true
    → (consume_challenge m id).0 ≡ err already_consumed
unfolding consume_challenge
used_up-consume m id r found used = rw (consume_challenge, found, used) refl

others :
    (m : TenantManager) (id probe : Text)
    → probe ≢ id
    → get_challenge (record m { challenges = mark_consumed id m.challenges }) probe
      ≡ get_challenge m probe
unfolding get_challenge
others m id probe apart = ground (arith, find-mark_consumed id probe m.challenges, eq_iff id probe)

-- a challenge that was used, for the first and only time
abbrev IsUsed : TenantManager → Text → Result ConsumeError (Unit {0}) × TenantManager → Type 0
IsUsed m id (r, after) =
    ((c : DidAuthChallenge) × (get_challenge m id ≡ some c))
    × (get_challenge after id ≡ none)
    × ((consume_challenge after id).0 ≡ err already_consumed)
    × ((probe : Text) → probe ≢ id → get_challenge after probe ≡ get_challenge m probe)

-- A challenge is consumed only if it was open; after that it is no longer found, a second
-- consumption is refused, and all other challenges are as before.
pub consume_challenge-once :
    (m : TenantManager) (id : Text)
    → (consume_challenge m id).0 ≡ ok tt
    → ((c : DidAuthChallenge) × (get_challenge m id ≡ some c))
      × (get_challenge (consume_challenge m id).1 id ≡ none)
      × ((consume_challenge (consume_challenge m id).1 id).0 ≡ err already_consumed)
      × ((probe : Text)
          → probe ≢ id
          → get_challenge (consume_challenge m id).1 probe ≡ get_challenge m probe)
unfolding consume_challenge get_challenge
consume_challenge-once m id h = elim (Option-cases (row_of m id)) [
  | inl missing ↦ absurd (ground arith)
  | inr (row, found) ↦ elim (Bool-cases row.consumed) [
    | inl used ↦ absurd (ground arith)
    | inr unused ↦
        let after : TenantManager = record m { challenges = mark_consumed id m.challenges } in
        let gone : row_of after id ≡ some (record row { consumed = true }) =
          find-mark_consumed id id m.challenges ∙ ground (arith, eq_iff id id) in
        let used : consume_challenge m id ≡ (ok tt, after) =
          rw (consume_challenge, found, unused) refl in
        subst (IsUsed m id) (sym used) (
          (row.challenge, ground arith),
          used_up-get after id (record row { consumed = true }) gone refl,
          used_up-consume after id (record row { consumed = true }) gone refl,
          λ probe apart. others m id probe apart,
        )
  ]
]
