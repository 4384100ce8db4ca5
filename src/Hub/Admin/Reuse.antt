-- ===== src/Hub/Admin/Reuse.antt =====
-- A second request with the challenge of the first, mesh-hub/src/admin.rs, and the same
-- request for another tenant.
use mars_protocol.Common.{
  ℕ, ◌≡◌, refl, ap, true, Option, none, some, ◌==◌, eq_iff, nat_eq, list_eq, arith, ok, err, codes,
  Text,
}
use mars_protocol.Core.External.{External}
use mars_protocol.Core.Identity.{did}
use mars_protocol.Hub.Auth.{DidAuthChallenge}
use mars_protocol.Hub.Tenants.{TenantManager, get_challenge, consume_challenge}
use mars_protocol.Hub.Admin.{
  AdminState, Response, respond, error_text, Parsers, VerifyIdentityRequest, Checked, check_request,
  register_proved, verify_identity,
}
use mars_protocol.Hub.Admin.Verify.{IsProof, verify_identity-IsVerification}

consume_challenge-ok :
    (m : TenantManager) (id : Text) (c : DidAuthChallenge)
    → get_challenge m id ≡ some c
    → (u : Unit {0}) × ((consume_challenge m id).0 ≡ ok u)
unfolding consume_challenge get_challenge
consume_challenge-ok m id c h = (tt, ground arith)

module _ (x : External) (parsers : Parsers) where
  -- a request that was proved with a challenge that is now consumed
  used_up :
      (m after : TenantManager) (id : Text) (req : VerifyIdentityRequest) (now later : ℕ)
      (c : Checked)
      → IsProof x parsers m id req now c
      → get_challenge after c.challenge_uuid ≡ none
      → check_request x parsers after id req later
        ≡ err (respond 404 (error_text (codes "challenge not found or already consumed")))
  unfolding check_request
  used_up m after id req now later c p gone =
      let same : (did x p.identity == req.did) ≡ true =
        (eq_iff (did x p.identity) req.did).1 p.own_did in
      rw (check_request, p.tenant, p.names, p.bytes, p.signs, p.reads, same, gone) refl

  refused_as :
      (s : AdminState) (id : Text) (req : VerifyIdentityRequest) (now at : ℕ) (fault : Option Text)
      (e : Response)
      → check_request x parsers s.tenant_manager id req now ≡ err e
      → ((verify_identity x parsers s id req now at fault).0.status ≡ e.status)
        × ((verify_identity x parsers s id req now at fault).1 ≡ s)
  unfolding verify_identity
  refused_as s id req now at fault e refused =
      let answer : verify_identity x parsers s id req now at fault ≡ (e, s) =
        rw (verify_identity, refused) refl in
      (
        ap (λ (r : Response × AdminState). r.0.status) answer,
        ap (λ (r : Response × AdminState). r.1) answer,
      )

  pub verify_identity-once :
      (s : AdminState) (id : Text) (req : VerifyIdentityRequest) (now at later then : ℕ)
      (fault : Option Text)
      → (verify_identity x parsers s id req now at fault).0.status ≡ 200
      → let after = (verify_identity x parsers s id req now at fault).1 in
        ((verify_identity x parsers after id req later then none).0.status ≡ 404)
        × ((verify_identity x parsers after id req later then none).1 ≡ after)
  verify_identity-once s id req now at later then fault h =
      let after = (verify_identity x parsers s id req now at fault).1 in
      let (c, proof, gone, listed) =
        (verify_identity-IsVerification x parsers s id req now at fault).0 h in
      let stop = used_up s.tenant_manager after.tenant_manager id req now later c proof gone in
      refused_as after id req later then none _ stop

  for_tenant :
      (m : TenantManager) (id other other_uuid : Text) (req : VerifyIdentityRequest) (now : ℕ)
      (c : Checked)
      → IsProof x parsers m id req now c
      → parsers.parse_uuid other ≡ some other_uuid
      → check_request x parsers m other req now ≡ ok (record c { tenant_uuid = other_uuid })
  unfolding check_request
  for_tenant m id other other_uuid req now c p parsed =
      let same : (did x p.identity == req.did) ≡ true =
        (eq_iff (did x p.identity) req.did).1 p.own_did in
      rw
        (
          check_request, parsed, p.names, p.bytes, p.signs, p.reads, same, p.open_challenge,
          p.in_time, p.signed,
        )
        refl

  register_proved-ok :
      (s : AdminState) (req : VerifyIdentityRequest) (at : ℕ) (c : Checked)
      (challenge : DidAuthChallenge)
      → get_challenge s.tenant_manager c.challenge_uuid ≡ some challenge
      → (register_proved x parsers s req at none c).0.status ≡ 200
  unfolding register_proved
  register_proved-ok s req at c challenge h =
      let (_, fresh) = consume_challenge-ok s.tenant_manager c.challenge_uuid challenge h in
      rw (register_proved, fresh) refl

  -- If verify_identity answers 200 for one tenant in the path, the same request is answered with
  -- 200 for any other id in the path that can be read, if the database does not fail: the tenant
  -- that the challenge was made for is not looked at.
  pub verify_identity-any_tenant :
      (s : AdminState) (id other other_uuid : Text) (req : VerifyIdentityRequest) (now at : ℕ)
      (fault : Option Text)
      → parsers.parse_uuid other ≡ some other_uuid
      → (verify_identity x parsers s id req now at fault).0.status ≡ 200
      → (verify_identity x parsers s other req now at none).0.status ≡ 200
  unfolding verify_identity
  verify_identity-any_tenant s id other other_uuid req now at fault parsed h =
      let (c, proof, gone, listed) =
        (verify_identity-IsVerification x parsers s id req now at fault).0 h in
      let passed = for_tenant s.tenant_manager id other other_uuid req now c proof parsed in
      rw (verify_identity, passed)
        (register_proved-ok s req at (record c { tenant_uuid = other_uuid }) proof.challenge
          proof.open_challenge)
