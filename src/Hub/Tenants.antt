-- ===== src/Hub/Tenants.antt =====
-- mesh-hub/src/tenant.rs: the accounts of a hub, in three tables of a SQLite database. A statement
-- succeeds, but for the insertion of an identity; what else fails is a query for the one row of a key
-- that is not there. Random ids and the time are arguments. A number is read back as it was stored.
pub mod Charges
pub mod Challenges
use mars_protocol.Common.{
  ℕ, ◌+◌, ◌-◌, zero, suc, Bool, true, false, not, ◌&&◌, Option, none, some, List, [], ◌∷◌, ◌++◌,
  any, find, map, retain, if◌then◌else◌, ltb, leb, ◌==◌, nat_eq, list_eq, Result, ok, err, Text,
  Bytes, codes,
}
use mars_protocol.Hub.Policy.{ℤ, pos, negsuc, ltb_int, Tenant}
use mars_protocol.Hub.Auth.{DidAuthChallenge, new_challenge}

-- a row of `tenant_identities`
pub record IdentityRow : Type 0 where
  pub tenant_id : Text
  pub identity_bytes : Bytes
  pub did : Text
  pub registered_at : ℕ

-- a row of `did_auth_challenges`
pub record ChallengeRow : Type 0 where
  pub tenant_id : Text
  pub challenge : DidAuthChallenge
  pub consumed : Bool

pub record TenantManager : Type 0 where
  pub tenants : List Tenant
  pub identities : List IdentityRow
  pub challenges : List ChallengeRow

pub record TenantUsage : Type 0 where
  pub current_descriptors : ℕ
  pub current_bytes : ℕ
  pub mu_balance : ℤ
  pub mu_limit : ℤ

-- `MuError`; the database's error is that no row was returned
pub data MuError : Type 0 where
  insufficient_balance : ℤ → ℤ → MuError
  no_rows : MuError

pub record TierQuotas : Type 0 where
  pub max_descriptors : ℕ
  pub max_storage_bytes : ℕ
  pub max_query_rate : ℕ
  pub max_store_rate : ℕ
  pub mu_limit : ℤ

-- the tables of `open`
abbrev pub empty_tables : TenantManager
empty_tables = record { tenants = []; identities = []; challenges = [] }

unfoldable pub tier_quotas : Text → TierQuotas
tier_quotas tier =
    if tier == codes "starter"
    then record {
      max_descriptors = 1000;
      max_storage_bytes = 10485760;
      max_query_rate = 50;
      max_store_rate = 5;
      mu_limit = pos 100000;
    }
    else if tier == codes "pro"
    then record {
      max_descriptors = 10000;
      max_storage_bytes = 104857600;
      max_query_rate = 100;
      max_store_rate = 10;
      mu_limit = pos 1000000;
    }
    else if tier == codes "enterprise"
    then record {
      max_descriptors = 1000000;
      max_storage_bytes = 10737418240;
      max_query_rate = 1000;
      max_store_rate = 100;
      mu_limit = pos 10000000;
    }
    else record {
      max_descriptors = 100;
      max_storage_bytes = 1048576;
      max_query_rate = 10;
      max_store_rate = 1;
      mu_limit = pos 10000;
    }

-- the account with its quotas, and nothing used
unfoldable pub create_tenant : TenantManager → Text → Text → Text → ℕ → Tenant × TenantManager
unfolding tier_quotas
create_tenant m id name tier now =
    let quotas = tier_quotas tier in
    let tenant : Tenant = record {
      id = id;
      name = name;
      tier = tier;
      max_descriptors = quotas.max_descriptors;
      max_storage_bytes = quotas.max_storage_bytes;
      max_query_rate = quotas.max_query_rate;
      max_store_rate = quotas.max_store_rate;
      current_descriptors = 0;
      current_bytes = 0;
      mu_balance = quotas.mu_limit;
      mu_limit = quotas.mu_limit;
      created_at = now;
    } in
    (tenant, record m { tenants = m.tenants ++ tenant ∷ [] })

unfoldable pub get_tenant : TenantManager → Text → Option Tenant
get_tenant m id = find (λ t. t.id == id) m.tenants

unfoldable pub list_tenants : TenantManager → List Tenant
list_tenants m = m.tenants

-- the identities go first; the answer is whether an account was there
unfoldable pub delete_tenant : TenantManager → Text → Bool × TenantManager
delete_tenant m id = (
  any (λ t. t.id == id) m.tenants,
  record m {
    identities = retain (λ r. not (r.tenant_id == id)) m.identities;
    tenants = retain (λ t. not (t.id == id)) m.tenants;
  },
)

-- `INSERT OR REPLACE`, the key being the tenant and the identity; the fault is the database's error, as
-- for an account that is not there
unfoldable pub register_identity :
    TenantManager → Text → Bytes → Text → ℕ → Option Text → Result Text (Unit {0}) × TenantManager
register_identity m tenant_id identity_bytes did now (some fault) = (err fault, m)
register_identity m tenant_id identity_bytes did now none =
    let row : IdentityRow = record {
      tenant_id = tenant_id;
      identity_bytes = identity_bytes;
      did = did;
      registered_at = now;
    } in
    (
      ok tt,
      record m {
        identities =
            retain (λ r. not (r.tenant_id == tenant_id && r.identity_bytes == identity_bytes))
              m.identities
            ++ row ∷ [];
      },
    )

unfoldable pub remove_identity : TenantManager → Text → Text → Bool × TenantManager
remove_identity m tenant_id did =
    let hit = λ (r : IdentityRow). r.tenant_id == tenant_id && r.did == did in
    (any hit m.identities, record m { identities = retain (λ r. not (hit r)) m.identities })

unfoldable pub find_tenant_by_identity : TenantManager → Bytes → Option Text
find_tenant_by_identity m identity_bytes =
    elim (find (λ r. r.identity_bytes == identity_bytes) m.identities) [
      | none ↦ none
      | some row ↦ some row.tenant_id
    ]

-- a - b
abbrev pub pos_part : ℤ → ℕ
pos_part (pos n) = n
pos_part (negsuc n) = 0

abbrev pub neg_part : ℤ → ℕ
neg_part (pos n) = 0
neg_part (negsuc n) = suc n

-- exact while the difference is an i64; beyond it SQLite would keep a REAL
unfoldable pub sub_int : ℤ → ℤ → ℤ
sub_int a b =
    let up = pos_part a + neg_part b in
    let down = neg_part a + pos_part b in
    if leb down up then pos (up - down) else negsuc (down - up - 1)

-- `UPDATE tenants SET .. WHERE id = ..`
unfoldable pub update_tenant : Text → (Tenant → Tenant) → List Tenant → List Tenant
update_tenant id f [] = []
update_tenant id f (t ∷ ts) = (if t.id == id then f t else t) ∷ update_tenant id f ts

unfoldable pub deduct_mu : TenantManager → Text → ℤ → Result MuError (Unit {0}) × TenantManager
unfolding update_tenant sub_int get_tenant
deduct_mu m tenant_id cost = elim (get_tenant m tenant_id) [
  | none ↦ (err no_rows, m)
  | some t ↦
      if ltb_int t.mu_balance cost then (err (insufficient_balance t.mu_balance cost), m) else (
        ok tt,
        record m {
          tenants =
              update_tenant tenant_id (λ u. record u { mu_balance = sub_int u.mu_balance cost })
                m.tenants;
        },
      )
]

unfoldable pub get_usage : TenantManager → Text → Option TenantUsage
unfolding get_tenant
get_usage m tenant_id = elim (get_tenant m tenant_id) [
  | none ↦ none
  | some t ↦ some (record {
    current_descriptors = t.current_descriptors;
    current_bytes = t.current_bytes;
    mu_balance = t.mu_balance;
    mu_limit = t.mu_limit;
  })
]

-- `if let Some(v) = ..` around one UPDATE
abbrev pub update_some :
    {V : Type 0} → Option V → Text → (V → Tenant → Tenant) → List Tenant → List Tenant
update_some none id f ts = ts
update_some (some v) id f ts = update_tenant id (f v) ts

unfoldable pub update_quotas : TenantManager → Text → Option ℕ → Option ℕ → Option ℤ → TenantManager
unfolding update_tenant
update_quotas m tenant_id max_descriptors max_storage_bytes mu_limit = record m {
  tenants =
      update_some mu_limit tenant_id (λ v t. record t { mu_limit = v })
        (update_some max_storage_bytes tenant_id (λ v t. record t { max_storage_bytes = v })
          (update_some max_descriptors tenant_id (λ v t. record t { max_descriptors = v })
            m.tenants));
}

unfoldable pub create_challenge :
    TenantManager → Text → Text → Text → Text → Bytes → ℕ → DidAuthChallenge × TenantManager
unfolding new_challenge
create_challenge m tenant_id hub_did action id nonce now =
    let challenge = new_challenge id nonce hub_did action now in
    (
      challenge,
      record m {
        challenges =
            m.challenges
            ++ record { tenant_id = tenant_id; challenge = challenge; consumed = false } ∷ [];
      },
    )

abbrev pub row_of : TenantManager → Text → Option ChallengeRow
row_of m id = find (λ r. r.challenge.id == id) m.challenges

-- a consumed challenge counts as not found
unfoldable pub get_challenge : TenantManager → Text → Option DidAuthChallenge
get_challenge m id = elim (row_of m id) [
  | none ↦ none
  | some row ↦ if row.consumed then none else some row.challenge
]

pub data ConsumeError : Type 0 where
  challenge_not_found : ConsumeError
  already_consumed : ConsumeError

-- `UPDATE did_auth_challenges SET consumed = 1 WHERE id = ..`
unfoldable pub mark_consumed : Text → List ChallengeRow → List ChallengeRow
mark_consumed id [] = []
mark_consumed id (r ∷ rs) =
    (if r.challenge.id == id then record r { consumed = true } else r) ∷ mark_consumed id rs

unfoldable pub consume_challenge :
    TenantManager → Text → Result ConsumeError (Unit {0}) × TenantManager
unfolding mark_consumed
consume_challenge m id = elim (row_of m id) [
  | none ↦ (err challenge_not_found, m)
  | some row ↦
      if row.consumed
      then (err already_consumed, m)
      else (ok tt, record m { challenges = mark_consumed id m.challenges })
]
