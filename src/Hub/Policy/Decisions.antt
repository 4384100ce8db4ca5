-- ===== src/Hub/Policy/Decisions.antt =====
-- When the checks of mesh-hub/src/policy.rs let a descriptor through.
use mars_protocol.Common.{
  any_iff, ℕ, ◌+◌, ◌≤◌, ◌<◌, ◌≡◌, ◌↔◌, ◌⊎◌, inl, inr, refl, Bool, true, false, not, ◌&&◌, List, [],
  ◌∷◌, any, Elem, All, nat_eq, list_eq, ◌==◌, arith, Bool-cases, ok, Text, IsU64,
}
use mars_protocol.Core.External.{External}
use mars_protocol.Core.Hash.{Hash}
use mars_protocol.Core.Identity.{did}
use mars_protocol.Core.Descriptor.{Descriptor}
use mars_protocol.Hub.Policy.{
  PolicyConfig, StoreMode, for_tenants, Tenant, check_routing_keys, check_store, check_quotas,
  open_to_all, tenant_only, allowlist,
}

module _ (x : External) where
  -- the rules of a hub for a descriptor
  pub record IsAllowed (config : PolicyConfig) (d : Descriptor) (is_tenant : Bool) : Type 0 where
    pub mode : (config.store_mode ≡ open_to_all) ⊎ (is_tenant ≡ true)
    pub identity : Elem (did x d.publisher) config.blocked_identities → ⊥
    pub keys : All (λ rk. Elem (x.hex rk.digest) config.blocked_routing_keys → ⊥) d.routing_keys

  check_routing_keys_iff :
      (blocked : List Text) (rks : List Hash)
      → (check_routing_keys x blocked rks ≡ ok tt)
        ↔ All (λ rk. Elem (x.hex rk.digest) blocked → ⊥) rks
  unfolding check_routing_keys
  check_routing_keys_iff blocked [] = (λ e. tt, λ h. refl)
  check_routing_keys_iff blocked (rk ∷ rks) =
      elim (Bool-cases (any (λ b. b == x.hex rk.digest) blocked)) [
        | inl hit ↦
            rw hit (λ e. absurd cc, λ h. absurd (h.0 ((any_iff (x.hex rk.digest) blocked).0 hit)))
        | inr clear ↦
            let unlisted : Elem (x.hex rk.digest) blocked → ⊥ =
              λ m. absurd (cc ((any_iff (x.hex rk.digest) blocked).1 m, clear)) in
            rw clear (
              λ e. (unlisted, (check_routing_keys_iff blocked rks).0 e),
              λ h. (check_routing_keys_iff blocked rks).1 h.1,
            )
      ]

  mode_iff :
      (mode : StoreMode) (is_tenant : Bool)
      → ((for_tenants mode && not is_tenant) ≡ false) ↔ ((mode ≡ open_to_all) ⊎ (is_tenant ≡ true))
  mode_iff open_to_all is_tenant = (λ e. inl refl, λ h. refl)
  mode_iff tenant_only true = (λ e. inr refl, λ h. refl)
  mode_iff tenant_only false =
      (λ e. absurd cc, λ h. elim h [ inl e ↦ absurd cc | inr e ↦ absurd cc ])
  mode_iff allowlist true = (λ e. inr refl, λ h. refl)
  mode_iff allowlist false = (λ e. absurd cc, λ h. elim h [ inl e ↦ absurd cc | inr e ↦ absurd cc ])

  -- A descriptor passes the policy exactly if the hub is open or the publisher is a tenant, the
  -- DID of the publisher is not blocked, and the hex digest of none of its routing keys is.
  pub check_store_iff :
      (config : PolicyConfig) (d : Descriptor) (is_tenant : Bool)
      → (check_store x config d is_tenant ≡ ok tt) ↔ IsAllowed config d is_tenant
  unfolding check_store
  check_store_iff config d is_tenant =
      let m = mode_iff config.store_mode is_tenant in
      let i = any_iff (did x d.publisher) config.blocked_identities in
      let k = check_routing_keys_iff config.blocked_routing_keys d.routing_keys in
      (
        λ e. record {
          mode = m.0 (ground arith);
          identity = λ e'. ground (arith, i.1 e');
          keys = k.0 (ground arith);
        },
        λ a. ground (arith, m.1 a.mode, k.1 a.keys, unlisted_false _ _ a.identity),
      )
    where
      unlisted_false : (t : Text) (ts : List Text) → (Elem t ts → ⊥) → any (λ b. b == t) ts ≡ false
      unlisted_false t ts no_elem = elim (Bool-cases (any (λ b. b == t) ts)) [
        | inl hit ↦ absurd (no_elem ((any_iff t ts).0 hit))
        | inr clear ↦ clear
      ]

-- As long as the sum of the bytes does not wrap, a descriptor passes the quotas exactly if there
-- is room for one more descriptor and its bytes fit.
pub check_quotas_iff :
    (t : Tenant) (size : ℕ)
    → IsU64 (t.current_bytes + size)
    → (check_quotas t size ≡ ok tt) ↔ (
        (t.current_descriptors < t.max_descriptors)
        × (t.current_bytes + size ≤ t.max_storage_bytes))
unfolding check_quotas
check_quotas_iff t size fits = (λ e. (ground arith, ground arith), λ (a, b). ground arith)
