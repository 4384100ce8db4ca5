-- ===== src/Examples/Operated.antt =====
-- Examples on the HTTP interface of mesh-hub.
use mars_protocol.Common.{
  ℕ, ◌+◌, ◌≡◌, ◌≢◌, refl, Option, none, some, [], ◌∷◌, Text, codes, list_beq, list_eq, nat_eq,
}
use mars_protocol.Core.Identity.{Identity, did, verify}
use mars_protocol.Hub.Auth.{to_signable_bytes, signable_value, new_challenge}
use mars_protocol.Hub.Policy.{ℤ}
use mars_protocol.Hub.Tenants.{get_challenge, create_challenge}
use mars_protocol.Hub.Tenants
use mars_protocol.Hub.Admin.{
  AdminState, Parsers, VerifyIdentityRequest, create_tenant, list_tenants, get_tenant,
  delete_tenant, register_identity, remove_identity, get_tenant_usage, update_tenant_quota,
  verify_identity, check_request,
}
use mars_protocol.Hub.Admin.Operators.{refused, operators-refused}
use mars_protocol.Hub.Admin.Verify.{IsVerification, verify_identity-IsVerification}
use mars_protocol.Hub.Admin.Reuse.{verify_identity-any_tenant}
use mars_protocol.Examples.Primitives.{sample, pad, noon, write_value}
use mars_protocol.Examples.Database.{accounts}

-- ids and hexadecimal texts stand for themselves
abbrev plain : Parsers
plain = record { parse_uuid = λ t. some t; decode_hex = λ t. some t }

abbrev hub : AdminState
hub = record {
  tenant_manager = accounts;
  hub_did = some (codes "did:mesh:h");
  operator_token = some (codes "secret");
}

bearer_guess : some (codes "Bearer guess") ≢ some (codes "Bearer secret")
bearer_guess e = absurd cc

operators-refused_example :
    ((name tier id : Text) (now : ℕ)
      → create_tenant hub (some (codes "Bearer guess")) name tier id now ≡ refused hub)
    × (list_tenants hub (some (codes "Bearer guess")) ≡ refused hub)
    × ((id : Text) → get_tenant plain hub (some (codes "Bearer guess")) id ≡ refused hub)
    × ((id : Text) → delete_tenant plain hub (some (codes "Bearer guess")) id ≡ refused hub)
    × ((id did identity_bytes : Text) (now : ℕ) (fault : Option Text)
        → register_identity plain hub (some (codes "Bearer guess")) id did identity_bytes now fault
          ≡ refused hub)
    × ((id did : Text)
        → remove_identity plain hub (some (codes "Bearer guess")) id did ≡ refused hub)
    × ((id : Text) → get_tenant_usage plain hub (some (codes "Bearer guess")) id ≡ refused hub)
    × ((id : Text) (descriptors bytes : Option ℕ) (limit : Option ℤ)
        → update_tenant_quota plain hub (some (codes "Bearer guess")) id descriptors bytes limit
          ≡ refused hub)
operators-refused_example =
    operators-refused plain hub (some (codes "Bearer guess")) (codes "secret") refl bearer_guess

abbrev alice_id : Identity
alice_id = record { algorithm = 1; public_key = pad 32 (1 ∷ 2 ∷ []) }

-- the challenge of the account, signed by alice
abbrev request : VerifyIdentityRequest
request = record {
  challenge_id = codes "c-1";
  identity_bytes = 1 ∷ pad 32 (1 ∷ 2 ∷ []);
  did = did sample alice_id;
  signature = pad 64 (
      to_signable_bytes sample
        (new_challenge (codes "c-1") (1 ∷ 2 ∷ []) (codes "did:mesh:h") (codes "register") noon));
}

proved :
    (verify_identity sample plain hub (codes "t-1") request (noon + 5) (noon + 6) none).0.status
    ≡ 200
unfolding verify_identity check_request Tenants.create_tenant create_challenge list_beq did verify
    new_challenge to_signable_bytes signable_value write_value
proved = refl

verify_identity-IsVerification_example :
    IsVerification sample plain hub
      (codes "t-1")
      request
      (noon + 5)
      (noon + 6)
      (verify_identity sample plain hub (codes "t-1") request (noon + 5) (noon + 6) none)
verify_identity-IsVerification_example =
    verify_identity-IsVerification sample plain hub (codes "t-1") request (noon + 5) (noon + 6) none

verify_identity-any_tenant_example :
    (verify_identity sample plain hub (codes "t-2") request (noon + 5) (noon + 6) none).0.status
    ≡ 200
verify_identity-any_tenant_example =
    verify_identity-any_tenant sample plain hub (codes "t-1") (codes "t-2") (codes "t-2") request
      (noon + 5) (noon + 6) none refl proved
