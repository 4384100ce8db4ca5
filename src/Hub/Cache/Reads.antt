-- ===== src/Hub/Cache/Reads.antt =====
-- What a reader of the cache in mesh-hub/src/storage/mod.rs gets.
use mars_protocol.Common.{
  ℕ, ◌≡◌, inl, inr, refl, sym, ap, subst, Bool-cases, Option-cases, Option, none, some, List, [],
  ◌∷◌, Elem, retain, arith, ◌==◌, eq_iff, nat_eq, list_eq, HashMap, lookup, insert, map, ok, Bytes,
  lookup-insert_self,
}
use mars_protocol.Core.Hash.{Hash}
use mars_protocol.Core.Descriptor.{Descriptor}
use mars_protocol.Core.Message.{FilterSet}
use mars_protocol.Dht.Storage.{matches}
use mars_protocol.Dht.Node.Interface.{DescriptorStorage}
use mars_protocol.Hub.Redb.{hash_bytes, remove_key}
use mars_protocol.Hub.Redb.Keys.{lookup-remove_key}
use mars_protocol.Hub.Cache.{
  CachedStorage, invalidate, store_descriptor, store_descriptor_at, load, get_descriptors,
}

lookup-invalidate :
    (rks : List Bytes) (k : Bytes) (cache : HashMap Bytes (List Descriptor)) (ds : List Descriptor)
    → lookup k (invalidate rks cache) ≡ some ds
    → (lookup k cache ≡ some ds) × (Elem k rks → ⊥)
unfolding invalidate
lookup-invalidate [] k cache ds h = (h, λ m. elim m [ ])
lookup-invalidate (rk ∷ rks) k cache ds h =
    let (below, apart) = lookup-invalidate rks k (remove_key rk cache) ds h in
    let shown = lookup-remove_key rk k cache in
    elim (Bool-cases (rk == k)) [
      | inl same ↦ absurd (ground arith)
      | inr other ↦ (
        ground arith,
        λ m. elim m [ inl e ↦ ground (arith, eq_iff rk k) | inr later ↦ apart later ],
      )
    ]

Elem-map : (rk : Hash) (rks : List Hash) → Elem rk rks → Elem (hash_bytes rk) (map hash_bytes rks)
Elem-map rk [] h = elim h [ ]
Elem-map rk (a ∷ rks) (inl e) = inl (ap hash_bytes e)
Elem-map rk (a ∷ rks) (inr h) = inr (Elem-map rk rks h)

module _ {S : Type 0} (storage : DescriptorStorage S) where
  load_of_miss :
      (c : CachedStorage S) (rk : Hash) (t : ℕ)
      → lookup (hash_bytes rk) c.cache ≡ none
      → (load storage c rk t).0 ≡ (storage.get_descriptors c.inner rk none t).0
  unfolding load
  load_of_miss c rk t miss = rw (load, miss) refl

  load_of_hit :
      (c : CachedStorage S) (rk : Hash) (t : ℕ) (cached : List Descriptor)
      → lookup (hash_bytes rk) c.cache ≡ some cached
      → load storage c rk t ≡ (cached, c)
  unfolding load
  load_of_hit c rk t cached hit = rw (load, hit) refl

  -- the cache behind a STORE that went through
  abbrev stored_cache : CachedStorage S → S → Descriptor → CachedStorage S
  stored_cache c inner d = record {
    inner = inner;
    cache = invalidate (map hash_bytes d.routing_keys) c.cache;
  }

  load-stored :
      (c : CachedStorage S) (inner : S) (d : Descriptor) (rk : Hash) (t : ℕ)
      → Elem rk d.routing_keys
      → (load storage (stored_cache c inner d) rk t).0 ≡ (storage.get_descriptors inner rk none t).0
  load-stored c inner d rk t listed =
      let keys = map hash_bytes d.routing_keys in
      let after = stored_cache c inner d in
      let miss : lookup (hash_bytes rk) after.cache ≡ none =
        elim (Option-cases (lookup (hash_bytes rk) after.cache)) [
          | inl none_left ↦ none_left
          | inr (ds, hit) ↦ absurd (
              (lookup-invalidate keys (hash_bytes rk) c.cache ds hit).1
                (Elem-map rk d.routing_keys listed))
        ] in
      load_of_miss after rk t miss

  -- Over any storage, the next read through the cache under a key of a descriptor that was stored,
  -- by either form of the STORE, gives what the storage then gives for the key, with the filters
  -- applied.
  pub get_descriptors-store :
      (c : CachedStorage S) (d : Descriptor) (now t : ℕ) (rk : Hash) (filters : Option FilterSet)
      → Elem rk d.routing_keys
      → ((storage.store_descriptor c.inner d now).0 ≡ ok tt
          → (get_descriptors storage (store_descriptor storage c d now).1 rk filters t).0
            ≡ retain
                (matches filters)
                (storage.get_descriptors (storage.store_descriptor c.inner d now).1 rk none t).0)
        × ((storage.store_descriptor_at c.inner d now).0 ≡ ok tt
            → (get_descriptors storage (store_descriptor_at storage c d now).1 rk filters t).0
              ≡ retain
                  (matches filters)
                  (storage.get_descriptors
                    (storage.store_descriptor_at c.inner d now).1
                    rk
                    none
                    t).0)
  unfolding get_descriptors store_descriptor store_descriptor_at
  get_descriptors-store c d now t rk filters listed = (
    λ stored.
        rw (store_descriptor, stored)
          (ap (retain (matches filters))
            (load-stored c (storage.store_descriptor c.inner d now).1 d rk t listed)),
    λ stored.
        rw (store_descriptor_at, stored)
          (ap (retain (matches filters))
            (load-stored c (storage.store_descriptor_at c.inner d now).1 d rk t listed)),
  )

  load-load :
      (c : CachedStorage S) (rk : Hash) (now later : ℕ)
      → (load storage (load storage c rk now).1 rk later).0 ≡ (load storage c rk now).0
  unfolding load
  load-load c rk now later = elim (Option-cases (lookup (hash_bytes rk) c.cache)) [
    | inr (cached, hit) ↦
        subst (λ r. (load storage r.1 rk later).0 ≡ r.0) (sym (load_of_hit c rk now cached hit))
          (ap (λ r. r.0) (load_of_hit c rk later cached hit))
    | inl miss ↦
        let (loaded, inner) = storage.get_descriptors c.inner rk none now in
        let after : CachedStorage S = record {
          inner = inner;
          cache = insert (hash_bytes rk) loaded c.cache;
        } in
        let first : load storage c rk now ≡ (loaded, after) = rw (load, miss) refl in
        subst (λ r. (load storage r.1 rk later).0 ≡ r.0) (sym first)
          (ap (λ r. r.0)
            (load_of_hit after rk later loaded (lookup-insert_self (hash_bytes rk) loaded c.cache)))
  ]

  pub get_descriptors-repeat :
      (c : CachedStorage S) (rk : Hash) (filters : Option FilterSet) (now later : ℕ)
      → (get_descriptors storage (get_descriptors storage c rk filters now).1 rk filters later).0
        ≡ (get_descriptors storage c rk filters now).0
  unfolding get_descriptors
  get_descriptors-repeat c rk filters now later =
      ap (retain (matches filters)) (load-load c rk now later)
