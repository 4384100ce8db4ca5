-- ===== src/Hub/Seeding/Counts.antt =====
-- What a seeding of mesh-hub/src/seeding.rs counts, and what it leaves of the rate limit.
use mars_protocol.Common.{
  ℕ, ◌+◌, ◌≡◌, inl, inr, refl, ◌∙◌, ap, true, false, Bool-cases, Option-cases, Result-cases, Option,
  none, some, List, [], ◌∷◌, length, arith, Text, Bytes, lookup, list_eq, nat_eq,
}
use mars_protocol.Core.External.{External}
use mars_protocol.Core.Descriptor.{Descriptor, validate}
use mars_protocol.Core.Identity.{Keypair}
use mars_protocol.Hub.Redb.{
  is_stale, RedbStorage, DescriptorCodec, remove_version, write_version, transact, dedup_key,
}
use mars_protocol.Hub.Redb
use mars_protocol.Hub.Cache
use mars_protocol.Hub.Cache.{CachedStorage}
use mars_protocol.Hub.Seeding.{
  SeedEntry, redb_storage, seed_descriptor, seed_all, set_skip, seed_now,
}

module _ (x : External) (codec : DescriptorCodec) where
  -- the limiter of a store is switched off and as it was
  abbrev SameLimit : RedbStorage → RedbStorage → Type 0
  SameLimit s after =
      (after.skip_rate_limit ≡ s.skip_rate_limit) × (after.rate_timestamps ≡ s.rate_timestamps)

  remove_version-SameLimit :
      (s : RedbStorage) (old : Option Bytes) → SameLimit s (remove_version x codec s old)
  unfolding remove_version
  remove_version-SameLimit s none = (refl, refl)
  remove_version-SameLimit s (some id) = (refl, refl)

  transact-SameLimit :
      (s : RedbStorage) (d : Descriptor) (fault : Option Text)
      → SameLimit s (transact x codec s d fault).1
  unfolding transact write_version
  transact-SameLimit s d fault = elim (Option-cases (codec.encode d)) [
    | inl unencodable ↦ rw (transact, unencodable) (refl, refl)
    | inr (cbor, encoded) ↦ elim (Option-cases fault) [
      | inr (e, failed) ↦ rw (transact, encoded, failed) (refl, refl)
      | inl fine ↦
          elim (Bool-cases (is_stale d.sequence (lookup (dedup_key x codec d) s.sequences))) [
            | inl stale ↦ rw (transact, encoded, fine, stale) (refl, refl)
            | inr fresh ↦
                rw (transact, encoded, fine, fresh)
                  (remove_version-SameLimit s (lookup (dedup_key x codec d) s.dedup_index))
          ]
    ]
  ]

  store-SameLimit :
      (s : RedbStorage) (d : Descriptor) (now : ℕ) (fault : Option Text)
      → s.skip_rate_limit ≡ true
      → SameLimit s (Redb.store_descriptor_at x codec s d now fault).1
  unfolding Redb.store_descriptor_at
  store-SameLimit s d now fault skipped = elim (Result-cases (validate x d now)) [
    | inr (e, bad) ↦ simp (Redb.store_descriptor_at, bad) (refl, refl)
    | inl (_, good) ↦
        let (flag, rates) = transact-SameLimit s d fault in
        simp (Redb.store_descriptor_at, good, skipped) (flag ∙ skipped, rates)
  ]

  cached-SameLimit :
      (c : CachedStorage RedbStorage) (d : Descriptor) (now : ℕ) (fault : Option Text)
      → (Cache.store_descriptor (redb_storage x codec fault) c d now).1.inner
        ≡ (Redb.store_descriptor_at x codec c.inner d now fault).1
  unfolding Cache.store_descriptor
  cached-SameLimit c d now fault =
      elim (Result-cases (Redb.store_descriptor_at x codec c.inner d now fault).0) [
        | inl (_, stored) ↦ rw (Cache.store_descriptor, stored) refl
        | inr (e, failed) ↦ rw (Cache.store_descriptor, failed) refl
      ]

  module _ {P : Type 0} (to_payload : SeedEntry P → Bytes) (keypair : Keypair) where
    -- a run of the loop from a store without limit
    abbrev IsRun : CachedStorage RedbStorage → ℕ → (ℕ × ℕ) × CachedStorage RedbStorage → Type 0
    IsRun c total ((stored, failed), after) =
        (stored + failed ≡ total) × (after.inner.rate_timestamps ≡ c.inner.rate_timestamps)

    seed_all-IsRun :
        (entries : List (SeedEntry P × ℕ × Option Text)) (c : CachedStorage RedbStorage)
        (now stored failed : ℕ)
        → c.inner.skip_rate_limit ≡ true
        → IsRun c
            (stored + failed + length entries)
            (seed_all x codec to_payload keypair c entries now stored failed)
    unfolding seed_all
    seed_all-IsRun [] c now stored failed skipped = (omega arith, refl)
    seed_all-IsRun ((entry, clock, fault) ∷ entries) c now stored failed skipped =
        let d = seed_descriptor x codec to_payload keypair entry now in
        let (r, after) = Cache.store_descriptor (redb_storage x codec fault) c d clock in
        let same = cached-SameLimit c d clock fault in
        let kept = store-SameLimit c.inner d clock fault skipped in
        let still : after.inner.skip_rate_limit ≡ true =
          ap (λ (s : RedbStorage). s.skip_rate_limit) same ∙ kept.0 ∙ skipped in
        let rates : after.inner.rate_timestamps ≡ c.inner.rate_timestamps =
          ap (λ (s : RedbStorage). s.rate_timestamps) same ∙ kept.1 in
        elim (Result-cases r) [
          | inl (_, good) ↦
              let rest = seed_all-IsRun entries after now (stored + 1) failed still in
              rw (seed_all, good) (omega (arith, rest.0), rest.1 ∙ rates)
          | inr (e, bad) ↦
              let rest = seed_all-IsRun entries after now stored (failed + 1) still in
              rw (seed_all, bad) (omega (arith, rest.0), rest.1 ∙ rates)
        ]

    -- A seeding counts each entry once, as stored or as failed, whatever the clock and the database do; it
    -- leaves the windows of the rate limit as they were, and the limit switched on.
    seed_now-counts :
        (c : CachedStorage RedbStorage) (entries : List (SeedEntry P × ℕ × Option Text)) (now : ℕ)
        → ((seed_now x codec to_payload keypair c entries now).0.0
              + (seed_now x codec to_payload keypair c entries now).0.1
            ≡ length entries)
          × ((seed_now x codec to_payload keypair c entries now).1.inner.rate_timestamps
              ≡ c.inner.rate_timestamps)
          × ((seed_now x codec to_payload keypair c entries now).1.inner.skip_rate_limit ≡ false)
    unfolding seed_now
    seed_now-counts c entries now =
        let run =
          seed_all-IsRun entries (set_skip x codec to_payload keypair true c) now 0 0 refl in
        (omega (arith, run.0), run.1, refl)
