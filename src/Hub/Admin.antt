-- ===== src/Hub/Admin.antt =====
-- mesh-hub/src/admin.rs: the handlers of the HTTP interface over the accounts. A handler has the state
-- behind it; a request holds the parsed body and the authorization header, if it is a text. Of the state
-- only what these handlers read is kept: health, status and metrics read counters alone.
pub mod Operators
pub mod Verify
pub mod Reuse
use mars_protocol.Common.{
  ℕ, Bool, true, false, not, Option, none, some, [], ◌∷◌, List, length, if◌then◌else◌, ltb, ◌==◌,
  nat_eq, list_eq, Result, ok, err, ◌>>=◌, ◌>>◌, reject_if, map_err, unwrap_or, Text, Bytes, codes,
}
use mars_protocol.Core.External.{External}
use mars_protocol.Core.Error.{MeshError}
use mars_protocol.Core.Identity.{Identity, did}
use mars_protocol.Hub.Auth.{DidAuthChallenge, verify_challenge, is_expired}
use mars_protocol.Hub.Peering.{strip_prefix}
use mars_protocol.Hub.Policy.{ℤ, Tenant}
use mars_protocol.Hub.Tenants
use mars_protocol.Hub.Tenants.{
  TenantManager, TenantUsage, MuError, ConsumeError, get_challenge, consume_challenge,
}

pub record AdminState : Type 0 where
  pub tenant_manager : TenantManager
  pub hub_did : Option Text
  pub operator_token : Option Text

-- the JSON of a response; an error is shown in a text, here the error itself
pub data Body : Type 0 where
  no_body : Body
  error_text : Text → Body
  auth_error : MeshError → Body
  consume_error : ConsumeError → Body
  no_usage : Body
  tenant_body : Tenant → Body
  tenants_body : List Tenant → Body
  usage_body : TenantUsage → Body
  challenge_body : DidAuthChallenge → Body
  registered : Text → Body

pub record Response : Type 0 where
  pub status : ℕ
  pub body : Body

abbrev pub respond : ℕ → Body → Response
respond status body = record { status = status; body = body }

abbrev pub bad_request : Text → Response
bad_request message = respond 400 (error_text message)

-- `Uuid::parse_str` and `hex::decode`
pub record Parsers : Type 0 where
  pub parse_uuid : Text → Option Text
  pub decode_hex : Text → Option Bytes

-- `let Some(..) = .. else { return .. }`
abbrev pub or_reject : {A : Type 0} → Option A → Response → Result Response A
or_reject none response = err response
or_reject (some a) response = ok a

-- `Ok` if no token is configured or the header carries it
unfoldable pub check_operator_token : AdminState → Option Text → Result Response (Unit {0})
unfolding strip_prefix
check_operator_token s header = elim s.operator_token [
  | none ↦ ok tt
  | some expected ↦
      let auth = unwrap_or header [] in
      elim (strip_prefix (codes "Bearer ") auth) [
        | none ↦ err (respond 401 no_body)
        | some token ↦ if token == expected then ok tt else err (respond 401 no_body)
      ]
]

-- an early return leaves the state as it was
abbrev pub finish :
    {A : Type 0}
    → AdminState
    → Result Response A
    → (A → Response × AdminState)
    → Response × AdminState
finish s (err response) k = (response, s)
finish s (ok a) k = k a

unfoldable pub create_tenant :
    AdminState → Option Text → Text → Text → Text → ℕ → Response × AdminState
unfolding check_operator_token Tenants.create_tenant
create_tenant s header name tier id now = finish s (check_operator_token s header) (λ _.
    let (tenant, m) = Tenants.create_tenant s.tenant_manager id name tier now in
    (respond 201 (tenant_body tenant), record s { tenant_manager = m }))

unfoldable pub list_tenants : AdminState → Option Text → Response × AdminState
unfolding check_operator_token
list_tenants s header =
    finish s (check_operator_token s header)
      (λ _. (respond 200 (tenants_body (Tenants.list_tenants s.tenant_manager)), s))

module _ (parsers : Parsers) where
  -- the token, then the id in the path
  unfoldable pub operator_uuid : AdminState → Option Text → Text → Result Response Text
  unfolding check_operator_token
  operator_uuid s header id = check_operator_token s header >>= λ _.
      or_reject (parsers.parse_uuid id) (bad_request (codes "invalid uuid"))

  unfoldable pub get_tenant : AdminState → Option Text → Text → Response × AdminState
  unfolding operator_uuid
  get_tenant s header id = finish s (operator_uuid s header id) (λ uuid.
      elim (Tenants.get_tenant s.tenant_manager uuid) [
        | some tenant ↦ (respond 200 (tenant_body tenant), s)
        | none ↦ (respond 404 no_body, s)
      ])

  unfoldable pub delete_tenant : AdminState → Option Text → Text → Response × AdminState
  unfolding operator_uuid Tenants.delete_tenant
  delete_tenant s header id = finish s (operator_uuid s header id) (λ uuid.
      let (deleted, m) = Tenants.delete_tenant s.tenant_manager uuid in
      (respond (if deleted then 204 else 404) no_body, record s { tenant_manager = m }))

  unfoldable pub register_identity :
      AdminState → Option Text → Text → Text → Text → ℕ → Option Text → Response × AdminState
  unfolding operator_uuid Tenants.register_identity
  register_identity s header id did identity_bytes now fault =
      finish s (operator_uuid s header id) (λ uuid. elim (parsers.decode_hex identity_bytes) [
        | none ↦ (bad_request (codes "invalid hex for identity_bytes"), s)
        | some id_bytes ↦
            let (r, m) = Tenants.register_identity s.tenant_manager uuid id_bytes did now fault in
            elim r [
              | ok _ ↦ (respond 201 no_body, record s { tenant_manager = m })
              | err e ↦ (respond 500 (error_text e), record s { tenant_manager = m })
            ]
      ])

  unfoldable pub remove_identity : AdminState → Option Text → Text → Text → Response × AdminState
  unfolding operator_uuid Tenants.remove_identity
  remove_identity s header id did = finish s (operator_uuid s header id) (λ uuid.
      let (removed, m) = Tenants.remove_identity s.tenant_manager uuid did in
      (respond (if removed then 204 else 404) no_body, record s { tenant_manager = m }))

  unfoldable pub get_tenant_usage : AdminState → Option Text → Text → Response × AdminState
  unfolding operator_uuid
  get_tenant_usage s header id = finish s (operator_uuid s header id) (λ uuid.
      elim (Tenants.get_usage s.tenant_manager uuid) [
        | some usage ↦ (respond 200 (usage_body usage), s)
        | none ↦ (respond 500 no_usage, s)
      ])

  unfoldable pub update_tenant_quota :
      AdminState → Option Text → Text → Option ℕ → Option ℕ → Option ℤ → Response × AdminState
  unfolding operator_uuid Tenants.update_quotas
  update_tenant_quota s header id max_descriptors max_storage_bytes mu_limit =
      finish s (operator_uuid s header id) (λ uuid.
        elim (Tenants.get_tenant s.tenant_manager uuid) [
          | none ↦ (respond 404 no_body, s)
          | some _ ↦
              let m =
                Tenants.update_quotas s.tenant_manager uuid max_descriptors max_storage_bytes
                  mu_limit in
              let after = record s { tenant_manager = m } in
              elim (Tenants.get_tenant m uuid) [
                | some tenant ↦ (respond 200 (tenant_body tenant), after)
                | none ↦ (respond 200 no_body, after)
              ]
        ])

  -- open to all
  unfoldable pub create_identity_challenge :
      AdminState → Text → Text → Text → Bytes → ℕ → Response × AdminState
  unfolding Tenants.create_challenge
  create_identity_challenge s id action challenge_id nonce now =
      finish s (or_reject (parsers.parse_uuid id) (bad_request (codes "invalid uuid"))) (λ uuid.
        let hub_did = unwrap_or s.hub_did [] in
        elim (Tenants.get_tenant s.tenant_manager uuid) [
          | none ↦ (respond 404 no_body, s)
          | some _ ↦
              let (challenge, m) =
                Tenants.create_challenge s.tenant_manager uuid hub_did action challenge_id nonce
                  now in
              (respond 201 (challenge_body challenge), record s { tenant_manager = m })
        ])

pub record VerifyIdentityRequest : Type 0 where
  pub challenge_id : Text
  pub identity_bytes : Text
  pub did : Text
  pub signature : Text

-- what the checks of a request yield
pub record Checked : Type 0 where
  pub tenant_uuid : Text
  pub challenge_uuid : Text
  pub id_bytes : Bytes

-- an algorithm byte and a key of at least one byte
abbrev pub read_identity : Bytes → Result Response Identity
read_identity [] = err (bad_request (codes "identity_bytes too short"))
read_identity (algorithm ∷ []) = err (bad_request (codes "identity_bytes too short"))
read_identity (algorithm ∷ k ∷ ks) = ok (record { algorithm = algorithm; public_key = k ∷ ks })

module _ (x : External) (parsers : Parsers) where
  -- all that stands before the challenge is consumed
  unfoldable pub check_request :
      TenantManager → Text → VerifyIdentityRequest → ℕ → Result Response Checked
  unfolding get_challenge is_expired verify_challenge
  check_request m id req now = do
    tenant_uuid ← or_reject (parsers.parse_uuid id) (bad_request (codes "invalid tenant uuid"))
    challenge_uuid ←
        or_reject (parsers.parse_uuid req.challenge_id) (bad_request (codes "invalid challenge_id"))
    id_bytes ←
        or_reject (parsers.decode_hex req.identity_bytes)
          (bad_request (codes "invalid hex for identity_bytes"))
    sig_bytes ←
        or_reject (parsers.decode_hex req.signature)
          (bad_request (codes "invalid hex for signature"))
    identity ← read_identity id_bytes
    reject_if (not (did x identity == req.did)) (bad_request (codes "DID does not match identity"))
    challenge ←
        or_reject (get_challenge m challenge_uuid)
          (respond 404 (error_text (codes "challenge not found or already consumed")))
    reject_if (is_expired challenge now) (respond 410 (error_text (codes "challenge expired")))
    map_err (λ e. respond 403 (auth_error e)) (verify_challenge x challenge identity sig_bytes)
    ok (record { tenant_uuid = tenant_uuid; challenge_uuid = challenge_uuid; id_bytes = id_bytes })

  -- the challenge is consumed, then the identity registered
  unfoldable pub register_proved :
      AdminState → VerifyIdentityRequest → ℕ → Option Text → Checked → Response × AdminState
  unfolding consume_challenge Tenants.register_identity
  register_proved s req at fault c =
      let (used, m1) = consume_challenge s.tenant_manager c.challenge_uuid in
      let (r, m2) = Tenants.register_identity m1 c.tenant_uuid c.id_bytes req.did at fault in
      elim used [
        | err e ↦ (respond 409 (consume_error e), record s { tenant_manager = m1 })
        | ok _ ↦ elim r [
          | err e ↦ (respond 500 (error_text e), record s { tenant_manager = m2 })
          | ok _ ↦ (respond 200 (registered req.did), record s { tenant_manager = m2 })
        ]
      ]

  -- `now` is read for the expiry, `at` for the row
  unfoldable pub verify_identity :
      AdminState → Text → VerifyIdentityRequest → ℕ → ℕ → Option Text → Response × AdminState
  unfolding check_request register_proved
  verify_identity s id req now at fault =
      finish s (check_request s.tenant_manager id req now) (register_proved s req at fault)
