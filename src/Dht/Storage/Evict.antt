-- ===== src/Dht/Storage/Evict.antt =====
-- `evict_expired_at` of mesh-dht/src/storage.rs: it frees memory, and no reader sees a difference.
use mars_protocol.Common.{
  ℕ, ◌+◌, ◌*◌, ◌≤◌, ◌<◌, min, ◌≡◌, ◌≢◌, refl, ◌∙◌, Bool, true, not, Option, none, some, List, [],
  ◌∷◌, retain, retain-retain, All-map, All, if◌then◌else◌, ltb, is_empty, lookup, unwrap_or,
  lookup-retain_values, lookup-map_values, map_values-Distinct, map_values, AllEntries,
  AllEntries-map_values, arith, Option-cases, inl, inr, IsClock, nat_eq, list_eq, retain_values, ap,
  All-retain_map, Distinct,
}
use mars_protocol.Core.External.{External}
use mars_protocol.Core.Hash.{Hash, hash_eq}
use mars_protocol.Core.Descriptor.{Descriptor, effective_end, max_ttl_secs}
use mars_protocol.Core.Message.{FilterSet}
use mars_protocol.Dht.Storage.Shrinks.{AllStored}
use mars_protocol.Dht.Storage.Invariant.{IsHeld, IsValid, evict_expired_at-IsValid}
use mars_protocol.Dht.Storage.Serve.{stored-IsHeld, get_is_retain, ttl-le}
use mars_protocol.Dht.Storage.{
  DescriptorStore, Index, is_served, get_descriptors_at, retain_all, drop_empty, evict_expired_at,
}

abbrev alive_at : ℕ → Descriptor → Bool
alive_at t d = ltb t (effective_end d t)

empty_or_same :
    (ds : List Descriptor) → unwrap_or (if not (is_empty ds) then some ds else none) [] ≡ ds
empty_or_same [] = refl
empty_or_same (d ∷ ds) = refl

-- Under every key what remains are the descriptors that pass the test.
stored_after :
    (keep : Descriptor → Bool) (store : Index) (key : Hash)
    → Distinct store
    → unwrap_or (lookup key (drop_empty (retain_all keep store))) []
      ≡ retain keep (unwrap_or (lookup key store) [])
unfolding drop_empty retain_all
stored_after keep store key d =
    let after =
      lookup-retain_values (λ v. not (is_empty v)) key (map_values (retain keep) store)
        (map_values-Distinct (retain keep) store d) in
    let filtered = lookup-map_values (retain keep) key store in
    elim (Option-cases (lookup key store)) [
      | inl gone ↦ rw (after, filtered, gone) refl
      | inr (ds, here) ↦ rw (after, filtered, here) (empty_or_same (retain keep ds))
    ]

-- The compaction leaves no key without a descriptor.
drop_empty_some :
    (P : Hash → Descriptor → Type 0) (store : Index)
    → AllStored P store
    → AllEntries (λ key ds. All (P key) ds × (ds ≢ [])) (drop_empty store)
unfolding drop_empty retain_values
drop_empty_some P [] h = tt
drop_empty_some P ((key, []) ∷ store) h = drop_empty_some P store h.1
drop_empty_some P ((key, d ∷ ds) ∷ store) h = ((h.0, λ e. cc), drop_empty_some P store h.1)

module _ (x : External) (s : DescriptorStore) (v : IsValid x s) (t : ℕ) (clock : IsClock t) where
  -- A descriptor that a reader gets later on was alive before.
  served_is_alive :
      (revoked : List Hash) (filters : Option FilterSet) (now : ℕ) (d : Descriptor)
      → IsClock now
      → t ≤ now
      → d.ttl ≤ max_ttl_secs
      → is_served revoked filters now d ≡ true
      → alive_at t d ≡ true
  unfolding is_served effective_end
  served_is_alive revoked filters now d c le short e = ground arith

  -- For a reader at any later time, both times below 2^63, a valid store answers after the removal
  -- of what has expired as it did before.
  pub get_descriptors_at-evict_expired_at :
      (key : Hash) (filters : Option FilterSet) (now : ℕ)
      → IsClock now
      → t ≤ now
      → get_descriptors_at (evict_expired_at s t) key filters now
        ≡ get_descriptors_at s key filters now
  get_descriptors_at-evict_expired_at key filters now c le =
      let served = is_served s.revoked filters now in
      rw
        (
          get_is_retain x s v key filters now,
          get_is_retain x (evict_expired_at s t) (evict_expired_at-IsValid x s t v) key filters now,
        )
        (unfold evict_expired_at in
          ap (retain served) (stored_after (alive_at t) s.store key v.distinct)
          ∙ retain-retain served (alive_at t) _ (
              All-map _ _
                (λ d h.
                  served_is_alive s.revoked filters now d c le
                    (ttl-le x d h.accepted.0 h.accepted.1))
                (stored-IsHeld x s v key)))

  -- After the removal of what has expired at a time below 2^63 everything stored in a valid store
  -- is alive at that time, and no key is left without a descriptor.
  pub evict_expired_at-alive :
      AllEntries
        (λ key ds. All (λ d. t < min d.timestamp t + d.ttl * 1000000) ds × (ds ≢ []))
        (evict_expired_at s t).store
  unfolding evict_expired_at retain_all effective_end
  evict_expired_at-alive =
      drop_empty_some (λ key d. t < min d.timestamp t + d.ttl * 1000000) _
        (AllEntries-map_values (λ key ds. All (IsHeld x s.sequences key) ds)
          (λ key ds. All (λ d. t < min d.timestamp t + d.ttl * 1000000) ds) _ s.store
          (λ key ds.
            All-retain_map _ _ _ ds
              (λ d h alive. ground (arith, ttl-le x d h.accepted.0 h.accepted.1)))
          v.held)
