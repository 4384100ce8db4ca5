-- ===== src/Hub/Admin/Operators.antt =====
-- Who may use the operator handlers of mesh-hub/src/admin.rs.
use mars_protocol.Common.{
  ℕ, ◌≡◌, ◌≢◌, inl, inr, refl, Bool-cases, Option-cases, Option, some, [], ◌∷◌, ◌++◌, ◌==◌, eq_iff,
  nat_eq, list_eq, arith, err, Text, codes, unwrap_or,
}
use mars_protocol.Hub.Peering.{strip_prefix}
use mars_protocol.Hub.Policy.{ℤ}
use mars_protocol.Hub.Admin.{
  AdminState, Response, no_body, respond, Parsers, check_operator_token, operator_uuid,
  create_tenant, list_tenants, get_tenant, delete_tenant, register_identity, remove_identity,
  get_tenant_usage, update_tenant_quota,
}

strip_prefix_sound : (p t r : Text) → strip_prefix p t ≡ some r → t ≡ p ++ r
unfolding strip_prefix
strip_prefix_sound [] t r h = cc
strip_prefix_sound (a ∷ p) [] r h = absurd cc
strip_prefix_sound (a ∷ p) (c ∷ t) r h = elim (Bool-cases (a == c)) [
  | inl same ↦ let tail = strip_prefix_sound p t r (ground arith) in ground (arith, eq_iff a c)
  | inr other ↦ absurd (ground arith)
]

-- the header that an operator sends
abbrev pub bearer : Text → Text
bearer token = codes "Bearer " ++ token

token_checked :
    (s : AdminState) (header : Option Text) (expected : Text)
    → s.operator_token ≡ some expected
    → header ≢ some (bearer expected)
    → check_operator_token s header ≡ err (respond 401 no_body)
unfolding check_operator_token
token_checked s header expected configured other =
    elim (Option-cases (strip_prefix (codes "Bearer ") (unwrap_or header []))) [
      | inl bare ↦ rw (check_operator_token, configured, bare) refl
      | inr (token, found) ↦ elim (Bool-cases (token == expected)) [
        | inr wrong ↦ rw (check_operator_token, configured, found, wrong) refl
        | inl right ↦
            let shown = strip_prefix_sound (codes "Bearer ") (unwrap_or header []) token found in
            elim (Option-cases header) [
              | inl missing ↦ absurd (ground (arith, shown))
              | inr (value, sent) ↦ absurd (other (ground (arith, shown, eq_iff token expected)))
            ]
      ]
    ]

-- the answer to whoever is not the operator
abbrev pub refused : AdminState → Response × AdminState
refused s = (respond 401 no_body, s)

module _ (parsers : Parsers) (s : AdminState) (header : Option Text) (expected : Text)
    (configured : s.operator_token ≡ some expected) (other : header ≢ some (bearer expected)) where
  refused_uuid : (id : Text) → operator_uuid parsers s header id ≡ err (respond 401 no_body)
  unfolding operator_uuid
  refused_uuid id = rw (operator_uuid, token_checked s header expected configured other) refl

  -- If a token is configured and the header is not Bearer with that token, each of the eight
  -- operator handlers answers 401 and leaves the state as it was.
  pub operators-refused :
      ((name tier id : Text) (now : ℕ) → create_tenant s header name tier id now ≡ refused s)
      × (list_tenants s header ≡ refused s)
      × ((id : Text) → get_tenant parsers s header id ≡ refused s)
      × ((id : Text) → delete_tenant parsers s header id ≡ refused s)
      × ((id did identity_bytes : Text) (now : ℕ) (fault : Option Text)
          → register_identity parsers s header id did identity_bytes now fault ≡ refused s)
      × ((id did : Text) → remove_identity parsers s header id did ≡ refused s)
      × ((id : Text) → get_tenant_usage parsers s header id ≡ refused s)
      × ((id : Text) (descriptors bytes : Option ℕ) (limit : Option ℤ)
          → update_tenant_quota parsers s header id descriptors bytes limit ≡ refused s)
  unfolding create_tenant list_tenants get_tenant delete_tenant register_identity remove_identity
      get_tenant_usage update_tenant_quota
  operators-refused =
      let checked = token_checked s header expected configured other in
      (
        λ name tier id now. rw (create_tenant, checked) refl,
        rw (list_tenants, checked) refl,
        λ id. rw (get_tenant, refused_uuid id) refl,
        λ id. rw (delete_tenant, refused_uuid id) refl,
        λ id did identity_bytes now fault. rw (register_identity, refused_uuid id) refl,
        λ id did. rw (remove_identity, refused_uuid id) refl,
        λ id. rw (get_tenant_usage, refused_uuid id) refl,
        λ id descriptors bytes limit. rw (update_tenant_quota, refused_uuid id) refl,
      )
