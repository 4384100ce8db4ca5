-- ===== src/Hub/Policy.antt =====
-- mesh-hub/src/policy.rs: what a hub lets its users store. The reason of a refusal is always the text
-- "policy", so a result carries none. Sizes are machine words; the sum in `check_quotas` wraps.
pub mod Decisions
use mars_protocol.Common.{
  ℕ, Bool, true, false, not, ◌&&◌, ◌||◌, List, [], ◌∷◌, any, if◌then◌else◌, ltb, leb, nat_eq,
  list_eq, ◌==◌, Result, ok, err, ◌>>=◌, ◌>>◌, reject_if, Text, add_u64,
}
use mars_protocol.Core.External.{External}
use mars_protocol.Core.Hash.{Hash}
use mars_protocol.Core.Identity.{did}
use mars_protocol.Core.Descriptor.{Descriptor}

pub data StoreMode : Type 0 where
  open_to_all : StoreMode
  tenant_only : StoreMode
  allowlist : StoreMode

pub record PolicyConfig : Type 0 where
  pub store_mode : StoreMode
  pub blocked_identities : List Text
  pub blocked_routing_keys : List Text

-- `PolicyConfig::default`
abbrev pub default_policy : PolicyConfig
default_policy = record {
  store_mode = open_to_all;
  blocked_identities = [];
  blocked_routing_keys = [];
}

-- an `i64`, the number or -(n + 1)
pub data ℤ : Type 0 where
  pos : ℕ → ℤ
  negsuc : ℕ → ℤ

abbrev pub ltb_int : ℤ → ℤ → Bool
ltb_int (pos a) (pos b) = ltb a b
ltb_int (pos a) (negsuc b) = false
ltb_int (negsuc a) (pos b) = true
ltb_int (negsuc a) (negsuc b) = ltb b a

-- the account of a tenant, mesh-hub/src/tenant.rs
pub record Tenant : Type 0 where
  pub id : Text
  pub name : Text
  pub tier : Text
  pub max_descriptors : ℕ
  pub max_storage_bytes : ℕ
  pub max_query_rate : ℕ
  pub max_store_rate : ℕ
  pub current_descriptors : ℕ
  pub current_bytes : ℕ
  pub mu_balance : ℤ
  pub mu_limit : ℤ
  pub created_at : ℕ

-- the only reason that is given
pub data Refusal : Type 0 where
  policy : Refusal

-- what `match` on the mode tests
abbrev pub for_tenants : StoreMode → Bool
for_tenants open_to_all = false
for_tenants tenant_only = true
for_tenants allowlist = true

module _ (x : External) where
  -- the loop over the routing keys
  unfoldable pub check_routing_keys : List Text → List Hash → Result Refusal (Unit {0})
  check_routing_keys blocked [] = ok tt
  check_routing_keys blocked (rk ∷ rks) =
      let rest = check_routing_keys blocked rks in
      if any (λ b. b == x.hex rk.digest) blocked then err policy else rest

  unfoldable pub check_store : PolicyConfig → Descriptor → Bool → Result Refusal (Unit {0})
  unfolding check_routing_keys
  check_store config descriptor is_tenant = do
    reject_if (for_tenants config.store_mode && not is_tenant) policy
    reject_if (any (λ b. b == did x descriptor.publisher) config.blocked_identities) policy
    check_routing_keys config.blocked_routing_keys descriptor.routing_keys

unfoldable pub check_quotas : Tenant → ℕ → Result Refusal (Unit {0})
check_quotas tenant descriptor_size = do
  reject_if (leb tenant.max_descriptors tenant.current_descriptors) policy
  reject_if (ltb tenant.max_storage_bytes (add_u64 tenant.current_bytes descriptor_size)) policy
  ok tt

unfoldable pub check_mu_budget : Tenant → ℤ → Result Refusal (Unit {0})
check_mu_budget tenant cost = reject_if (ltb_int tenant.mu_balance cost) policy
