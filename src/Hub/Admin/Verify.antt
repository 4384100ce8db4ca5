-- ===== src/Hub/Admin/Verify.antt =====
-- What `verify_identity` of mesh-hub/src/admin.rs registers, and for whom.
use mars_protocol.Common.{
  ℕ, ◌≡◌, ◌≢◌, inl, inr, refl, sym, ap, subst, false, Result-cases, Option, none, some, List, [],
  ◌∷◌, ◌++◌, Elem, ◌==◌, eq_iff, nat_eq, list_eq, arith, Result, ok, err, ◌>>=◌, reject_if, map_err,
  not, Text, Bytes,
}
use mars_protocol.Core.External.{External}
use mars_protocol.Core.Identity.{Identity, did}
use mars_protocol.Hub.Auth.{DidAuthChallenge, verify_challenge, is_expired}
use mars_protocol.Hub.Tenants.{TenantManager, IdentityRow, get_challenge, consume_challenge}
use mars_protocol.Hub.Tenants.Challenges.{consume_challenge-once}
use mars_protocol.Hub.Admin.{
  AdminState, Response, Parsers, VerifyIdentityRequest, Checked, or_reject, read_identity,
  check_request, register_proved, verify_identity,
}

bind_ok :
    {A C : Type 0} (r : Result Response A) (k : A → Result Response C) (c : C)
    → (r >>= k) ≡ ok c
    → (a : A) × (r ≡ ok a) × (k a ≡ ok c)
bind_ok (ok a) k c h = (a, refl, h)
bind_ok (err e) k c h = absurd cc

or_reject_ok :
    {A : Type 0} (o : Option A) (r : Response) (a : A) → or_reject o r ≡ ok a → o ≡ some a
or_reject_ok none r a h = absurd cc
or_reject_ok (some b) r a h = cc

ok_injective : {E A : Type 0} {a b : A} → Path (Result E A) (ok a) (ok b) → a ≡ b
ok_injective h = cc

map_err_ok : {E F A : Type 0} (f : E → F) (r : Result E A) {a : A} → map_err f r ≡ ok a → r ≡ ok a
map_err_ok f (ok b) h = ap ok (ok_injective h)
map_err_ok f (err e) h = absurd cc

consume_challenge-identities :
    (m : TenantManager) (id : Text) → (consume_challenge m id).1.identities ≡ m.identities
unfolding consume_challenge
consume_challenge-identities m id = ground arith

Elem-last : {A : Type 0} (xs : List A) (a : A) → Elem a (xs ++ a ∷ [])
Elem-last [] a = inl refl
Elem-last (b ∷ xs) a = inr (Elem-last xs a)

module _ (x : External) (parsers : Parsers) where
  -- the request proves that its sender has the key
  pub record IsProof (m : TenantManager) (id : Text) (req : VerifyIdentityRequest) (now : ℕ)
      (c : Checked) : Type 0 where
    pub tenant : parsers.parse_uuid id ≡ some c.tenant_uuid
    pub names : parsers.parse_uuid req.challenge_id ≡ some c.challenge_uuid
    pub bytes : parsers.decode_hex req.identity_bytes ≡ some c.id_bytes
    pub signature : Bytes
    pub signs : parsers.decode_hex req.signature ≡ some signature
    pub identity : Identity
    pub reads : read_identity c.id_bytes ≡ ok identity
    pub own_did : did x identity ≡ req.did
    pub challenge : DidAuthChallenge
    pub open_challenge : get_challenge m c.challenge_uuid ≡ some challenge
    pub in_time : is_expired challenge now ≡ false
    pub signed : verify_challenge x challenge identity signature ≡ ok tt

  check_request_sound :
      (m : TenantManager) (id : Text) (req : VerifyIdentityRequest) (now : ℕ) (c : Checked)
      → check_request x parsers m id req now ≡ ok c
      → IsProof m id req now c
  unfolding check_request
  check_request_sound m id req now c h =
      let (tenant_uuid, e1, h1) = bind_ok (or_reject (parsers.parse_uuid id) _) _ c h in
      let (challenge_uuid, e2, h2) =
        bind_ok (or_reject (parsers.parse_uuid req.challenge_id) _) _ c h1 in
      let (id_bytes, e3, h3) =
        bind_ok (or_reject (parsers.decode_hex req.identity_bytes) _) _ c h2 in
      let (signature, e4, h4) = bind_ok (or_reject (parsers.decode_hex req.signature) _) _ c h3 in
      let (identity, e5, h5) = bind_ok (read_identity id_bytes) _ c h4 in
      let (_, e6, h6) = bind_ok (reject_if (not (did x identity == req.did)) _) _ c h5 in
      let (challenge, e7, h7) = bind_ok (or_reject (get_challenge m challenge_uuid) _) _ c h6 in
      let (_, e8, h8) = bind_ok (reject_if (is_expired challenge now) _) _ c h7 in
      let (_, e9, h9) =
        bind_ok (map_err _ (verify_challenge x challenge identity signature)) _ c h8 in
      subst (IsProof m id req now) (ok_injective h9) (record {
        tenant = or_reject_ok _ _ _ e1;
        names = or_reject_ok _ _ _ e2;
        bytes = or_reject_ok _ _ _ e3;
        signature = signature;
        signs = or_reject_ok _ _ _ e4;
        identity = identity;
        reads = e5;
        own_did = ground (arith, eq_iff (did x identity) req.did);
        challenge = challenge;
        open_challenge = or_reject_ok _ _ _ e7;
        in_time = ground arith;
        signed = map_err_ok _ _ e9;
      })

  check_request_refuses :
      (m : TenantManager) (id : Text) (req : VerifyIdentityRequest) (now : ℕ) (e : Response)
      → check_request x parsers m id req now ≡ err e
      → e.status ≢ 200
  unfolding check_request
  check_request_refuses m id req now e h good = absurd (ground arith)

  -- the row of what was proved
  abbrev pub proved_row : VerifyIdentityRequest → Checked → ℕ → IdentityRow
  proved_row req c at = record {
    tenant_id = c.tenant_uuid;
    identity_bytes = c.id_bytes;
    did = req.did;
    registered_at = at;
  }

  -- an answer to a request
  abbrev pub IsVerification :
      AdminState → Text → VerifyIdentityRequest → ℕ → ℕ → Response × AdminState → Type 0
  IsVerification s id req now at (response, after) =
      (response.status ≡ 200
        → (c : Checked) × IsProof s.tenant_manager id req now c
          × (get_challenge after.tenant_manager c.challenge_uuid ≡ none)
          × Elem (proved_row req c at) after.tenant_manager.identities)
      × (response.status ≢ 200 → after.tenant_manager.identities ≡ s.tenant_manager.identities)

  register_proved-IsVerification :
      (s : AdminState) (id : Text) (req : VerifyIdentityRequest) (now at : ℕ) (fault : Option Text)
      (c : Checked)
      → IsProof s.tenant_manager id req now c
      → IsVerification s id req now at (register_proved x parsers s req at fault c)
  unfolding register_proved get_challenge
  register_proved-IsVerification s id req now at (some fault) c proof =
      let kept = consume_challenge-identities s.tenant_manager c.challenge_uuid in
      elim (Result-cases (consume_challenge s.tenant_manager c.challenge_uuid).0) [
        | inr (e, used) ↦ rw (register_proved, used) (λ h. absurd (omega (arith, h)), λ h. kept)
        | inl (_, fresh) ↦ rw (register_proved, fresh) (λ h. absurd (omega (arith, h)), λ h. kept)
      ]
  register_proved-IsVerification s id req now at none c proof =
      let once = consume_challenge-once s.tenant_manager c.challenge_uuid in
      let kept = consume_challenge-identities s.tenant_manager c.challenge_uuid in
      elim (Result-cases (consume_challenge s.tenant_manager c.challenge_uuid).0) [
        | inr (e, used) ↦ rw (register_proved, used) (λ h. absurd (omega (arith, h)), λ h. kept)
        | inl (_, fresh) ↦
            rw (register_proved, fresh)
              (
                λ h. (c, proof, (once fresh).1, Elem-last _ (proved_row req c at)),
                λ h. absurd (h refl),
              )
      ]

  -- verify_identity answers 200 only to a request that names an open and unexpired challenge,
  -- whose bytes the key of the given DID has signed; the challenge is then used up and the row of
  -- the identity is there. With any other answer the identities are as before.
  pub verify_identity-IsVerification :
      (s : AdminState) (id : Text) (req : VerifyIdentityRequest) (now at : ℕ) (fault : Option Text)
      → IsVerification s id req now at (verify_identity x parsers s id req now at fault)
  unfolding verify_identity
  verify_identity-IsVerification s id req now at fault =
      elim (Result-cases (check_request x parsers s.tenant_manager id req now)) [
        | inr (e, refused) ↦
            let answer : verify_identity x parsers s id req now at fault ≡ (e, s) =
              rw (verify_identity, refused) refl in
            subst (IsVerification s id req now at) (sym answer) (
              λ h. absurd (check_request_refuses s.tenant_manager id req now e refused h),
              λ h. refl,
            )
        | inl (c, passed) ↦
            let answer : verify_identity x parsers s id req now at fault
                ≡ register_proved x parsers s req at fault c =
              rw (verify_identity, passed) refl in
            subst (IsVerification s id req now at) (sym answer) (
              register_proved-IsVerification s id req now at fault c
                (check_request_sound s.tenant_manager id req now c passed))
      ]
