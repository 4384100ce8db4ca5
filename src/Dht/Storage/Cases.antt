-- ===== src/Dht/Storage/Cases.antt =====
-- The branches of `store_descriptor_at` in mesh-dht/src/storage.rs.
use mars_protocol.Common.{
  Result-cases, ℕ, ◌≤◌, ◌<◌, ◌≡◌, refl, true, false, some, ltb, arith, Bool-cases, Option-cases,
  inl, inr, lookup, ok, err, list_eq, nat_eq,
}
use mars_protocol.Core.External.{External}
use mars_protocol.Core.Error.{MeshError}
use mars_protocol.Core.Descriptor.{Descriptor, validate}
use mars_protocol.Dht.Storage.Limiter.{check_and_record, rate_limit_per_minute}
use mars_protocol.Dht.Storage.Parse.{
  validation_failed, descriptor_invalid, rate_limited, stale_descriptor,
}
use mars_protocol.Dht.Storage.{
  DescriptorStore, dedup_key, dedup_key_eq, accept, process, store_checked, store_descriptor_at,
}

module _ (x : External) (s : DescriptorStore) (d : Descriptor) (now : ℕ) where
  -- the store once the attempt is recorded
  abbrev pub recorded : DescriptorStore
  recorded = record s { rate_limiter = (check_and_record s.rate_limiter d.publisher now).1 }

  pub record IsFresh : Type 0 where
    pub valid : validate x d now ≡ ok tt
    pub within_rate : (check_and_record s.rate_limiter d.publisher now).0 ≡ true
    pub newest :
        (current : ℕ) → lookup (dedup_key d) s.sequences ≡ some current → current ≤ d.sequence

  pub data StoreCase : Type 0 where
    rejected :
        (e : MeshError)
        → validate x d now ≡ err e
        → store_descriptor_at x s d now ≡ (err (validation_failed (descriptor_invalid e)), s)
        → StoreCase
    limited :
        validate x d now ≡ ok tt
        → (check_and_record s.rate_limiter d.publisher now).0 ≡ false
        → store_descriptor_at x s d now ≡ (err (rate_limited rate_limit_per_minute), recorded)
        → StoreCase
    stale :
        (current : ℕ)
        → validate x d now ≡ ok tt
        → (check_and_record s.rate_limiter d.publisher now).0 ≡ true
        → lookup (dedup_key d) s.sequences ≡ some current
        → d.sequence < current
        → store_descriptor_at x s d now ≡ (err (stale_descriptor d.sequence current), recorded)
        → StoreCase
    written :
        IsFresh → store_descriptor_at x s d now ≡ process x (accept x recorded d) d → StoreCase

  pub store-StoreCase : StoreCase
  unfolding store_descriptor_at store_checked
  store-StoreCase = elim (Result-cases (validate x d now)) [
    | inr (e, bad) ↦ rejected e bad (rw (store_descriptor_at, bad) refl)
    | inl (u, good) ↦ elim (Bool-cases (check_and_record s.rate_limiter d.publisher now).0) [
      | inr refused ↦ limited good refused (rw (store_descriptor_at, good, refused) refl)
      | inl allowed ↦ elim (Option-cases (lookup (dedup_key d) s.sequences)) [
        | inl first ↦
            written (record { valid = good; within_rate = allowed; newest = λ c e. cc })
              (rw (store_descriptor_at, store_checked, good, allowed, first) refl)
        | inr (current, known) ↦ elim (Bool-cases (ltb d.sequence current)) [
          | inl older ↦
              stale current good allowed known (ground arith)
                (rw (store_descriptor_at, store_checked, good, allowed, known, older) refl)
          | inr newer ↦
              written (record { valid = good; within_rate = allowed; newest = λ c e. ground arith })
                (rw (store_descriptor_at, store_checked, good, allowed, known, newer) refl)
        ]
      ]
    ]
  ]

  pub store-IsFresh : IsFresh → store_descriptor_at x s d now ≡ process x (accept x recorded d) d
  store-IsFresh f = elim store-StoreCase [
    | rejected e bad here ↦ absurd cc
    | limited good refused here ↦ absurd cc
    | stale current good allowed known older here ↦ absurd (omega (arith, f.newest current known))
    | written fresh here ↦ here
  ]
