-- ===== src/Hub/Hooks.antt =====
-- mesh-hub/src/hooks.rs: what a hub asks before it stores: the rate of the publisher, then the policy.
-- The limiter changes by the check, so it is returned; queries are not limited.
use mars_protocol.Common.{
  ℕ, ◌≡◌, ◌↔◌, inl, inr, refl, Bool, true, false, Option, none, some, Result-cases, arith, Result,
  ok, err,
}
use mars_protocol.Core.External.{External}
use mars_protocol.Core.Hash.{Hash}
use mars_protocol.Core.Descriptor.{Descriptor}
use mars_protocol.Hub.RateLimit
use mars_protocol.Hub.RateLimit.{HubRateLimiter, RateLimitError, check_identity, identity_bytes}
use mars_protocol.Hub.Policy.{PolicyConfig, Refusal, check_store}
use mars_protocol.Hub.Policy.Decisions.{IsAllowed, check_store_iff}
use mars_protocol.Hub.Tenants.{TenantManager, find_tenant_by_identity}

pub record HubProtocolHook : Type 0 where
  pub policy : PolicyConfig
  pub tenant_manager : TenantManager
  pub rate_limiter : HubRateLimiter

-- the reasons: the text "rate limited", and that of the policy
pub data HookRefusal : Type 0 where
  too_many : HookRefusal
  against_policy : Refusal → HookRefusal

abbrev pub is_some : {A : Type 0} → Option A → Bool
is_some none = false
is_some (some a) = true

-- whether the publisher is registered with a tenant
abbrev pub is_tenant : HubProtocolHook → Descriptor → Bool
is_tenant h d = is_some (find_tenant_by_identity h.tenant_manager (identity_bytes d.publisher))

abbrev pub policy_result : Result Refusal (Unit {0}) → Result HookRefusal (Unit {0})
policy_result (ok u) = ok u
policy_result (err e) = err (against_policy e)

module _ (x : External) where
  unfoldable pub pre_store :
      HubProtocolHook → Descriptor → ℕ → Result HookRefusal (Unit {0}) × HubProtocolHook
  pre_store h d now =
      let (limited, limiter) = check_identity x h.rate_limiter d.publisher RateLimit.store now in
      let after = record h { rate_limiter = limiter } in
      elim limited [
        | err e ↦ (err too_many, after)
        | ok _ ↦ (policy_result (check_store x h.policy d (is_tenant h d)), after)
      ]

  unfoldable pub pre_query : HubProtocolHook → Hash → Result HookRefusal (Unit {0})
  pre_query h routing_key = ok tt

  policy_result_iff : (r : Result Refusal (Unit {0})) → (policy_result r ≡ ok tt) ↔ (r ≡ ok tt)
  policy_result_iff (ok u) = (λ h. refl, λ h. refl)
  policy_result_iff (err e) = (λ h. absurd cc, λ h. absurd cc)

  -- The hook of a hub lets a STORE through exactly if the limiter allows the publisher's call and
  -- the policy allows the descriptor, with the tenant of the publisher looked up.
  pub pre_store_iff :
      (h : HubProtocolHook) (d : Descriptor) (now : ℕ)
      → ((pre_store h d now).0 ≡ ok tt) ↔ (
          ((check_identity x h.rate_limiter d.publisher RateLimit.store now).0 ≡ ok tt)
          × IsAllowed x h.policy d (is_tenant h d))
  unfolding pre_store
  pre_store_iff h d now =
      let verdict = check_store x h.policy d (is_tenant h d) in
      let (to, from) = check_store_iff x h.policy d (is_tenant h d) in
      let (unwrap, wrap) = policy_result_iff verdict in
      elim (Result-cases (check_identity x h.rate_limiter d.publisher RateLimit.store now).0) [
        | inr (e, limited) ↦ simp (pre_store, limited) (λ p. absurd cc, λ p. absurd (ground arith))
        | inl (_, free) ↦ simp (pre_store, free) (λ p. (refl, to (unwrap p)), λ p. wrap (from p.1))
      ]
