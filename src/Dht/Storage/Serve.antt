-- ===== src/Dht/Storage/Serve.antt =====
-- What `get_descriptors_at` of mesh-dht/src/storage.rs gives to a reader.
use mars_protocol.Common.{
  any_iff, ℕ, ◌+◌, ◌*◌, ◌≤◌, ◌<◌, min, ◌≡◌, ◌↔◌, refl, Bool, true, not, Option, none, some, List,
  [], retain, any, Elem, Elem-retain, Elem_of_retain, All-Elem, ltb, ◌==◌, eq_iff, lookup,
  unwrap_or, AllEntries-lookup, arith, Bool-cases, Option-cases, inl, inr, IsClock, subst, nat_eq,
  list_eq, ok, All,
}
use mathlib.Core.Option.{some-injective}
use mars_protocol.Core.External.{External}
use mars_protocol.Core.Hash.{Hash, hash_eq}
use mars_protocol.Core.Identity.{Identity, identity_eq}
use mars_protocol.Core.Descriptor.{Descriptor, validate, effective_end, max_ttl_secs}
use mars_protocol.Core.Message.{FilterSet}
use mars_protocol.Dht.Storage.Invariant.{IsHeld, IsValid}
use mars_protocol.Dht.Storage.{DescriptorStore, is_none_or, matches, is_served, get_descriptors_at}

-- the filters of a FIND_VALUE
pub record Passes (f : FilterSet) (d : Descriptor) : Type 0 where
  pub schema_hash : (h : Hash) → f.schema_hash ≡ some h → d.schema_hash ≡ h
  pub min_timestamp : (t : ℕ) → f.min_timestamp ≡ some t → t ≤ d.timestamp
  pub publisher : (i : Identity) → f.publisher ≡ some i → d.publisher ≡ i

-- what a reader may rely on
pub record IsServed (revoked : List Hash) (filters : Option FilterSet) (now : ℕ) (d : Descriptor)
    : Type 0 where
  pub unrevoked : Elem d.id revoked → ⊥
  pub alive : now < min d.timestamp now + d.ttl * 1000000
  pub passes : (f : FilterSet) → filters ≡ some f → Passes f d

is_none_or_iff :
    {A : Type 0} (test : A → Bool) (o : Option A)
    → (is_none_or test o ≡ true) ↔ ((a : A) → o ≡ some a → test a ≡ true)
is_none_or_iff test none = (λ e a h. cc, λ h. refl)
is_none_or_iff test (some b) =
    (λ e a h. subst (λ y. test y ≡ true) (some-injective b a h) e, λ h. h b refl)

matches_iff : (f : FilterSet) (d : Descriptor) → (matches (some f) d ≡ true) ↔ Passes f d
unfolding matches
matches_iff f d =
    let by_schema = is_none_or_iff (λ sh. d.schema_hash == sh) f.schema_hash in
    let by_time = is_none_or_iff (λ min_ts. not (ltb d.timestamp min_ts)) f.min_timestamp in
    let by_publisher = is_none_or_iff (λ pub_id. d.publisher == pub_id) f.publisher in
    (
      λ e. record {
        schema_hash = λ h k. (eq_iff d.schema_hash h).0 (by_schema.0 (ground arith) h k);
        min_timestamp = λ t k. ground (arith, by_time.0 (ground arith) t k);
        publisher = λ i k. (eq_iff d.publisher i).0 (by_publisher.0 (ground arith) i k);
      },
      λ p. ground (
        arith,
        by_schema.1 (λ h k. (eq_iff d.schema_hash h).1 (p.schema_hash h k)),
        by_time.1 (λ t k. ground (arith, p.min_timestamp t k)),
        by_publisher.1 (λ i k. (eq_iff d.publisher i).1 (p.publisher i k)),
      ),
    )

module _ (revoked : List Hash) (now : ℕ) (clock : IsClock now) (d : Descriptor)
    (ttl_ok : d.ttl ≤ max_ttl_secs) where
  abbrev AllPass : Option FilterSet → Type 0
  AllPass filters = (f : FilterSet) → filters ≡ some f → Passes f d

  AllPass-iff : (filters : Option FilterSet) → (matches filters d ≡ true) ↔ AllPass filters
  AllPass-iff none = unfold matches in (λ e f h. cc, λ h. refl)
  AllPass-iff (some g) = (
    λ e f h. subst (λ y. Passes y d) (some-injective g f h) ((matches_iff g d).0 e),
    λ h. (matches_iff g d).1 (h g refl),
  )

  is_served_iff :
      (filters : Option FilterSet)
      → (is_served revoked filters now d ≡ true) ↔ IsServed revoked filters now d
  unfolding is_served effective_end
  is_served_iff filters = (
    λ e. record {
      unrevoked = λ m. ground (arith, (any_iff d.id revoked).1 m);
      alive = ground arith;
      passes = (AllPass-iff filters).0 (ground arith);
    },
    λ h. elim (Bool-cases (any (λ k. k == d.id) revoked)) [
      | inl gone ↦ absurd (h.unrevoked ((any_iff d.id revoked).0 gone))
      | inr fine ↦ ground (arith, h.alive, (AllPass-iff filters).1 h.passes)
    ],
  )

module _ (x : External) where
  -- a descriptor that was found valid keeps the limit on its ttl
  pub ttl-le : (d : Descriptor) (t : ℕ) → validate x d t ≡ ok tt → d.ttl ≤ max_ttl_secs
  unfolding validate
  ttl-le d t h = ground arith

  module _ (s : DescriptorStore) (v : IsValid x s) (key : Hash) where
    abbrev pub stored : List Descriptor
    stored = unwrap_or (lookup key s.store) []

    pub stored-IsHeld : All (IsHeld x s.sequences key) stored
    stored-IsHeld = elim (Option-cases (lookup key s.store)) [
      | inl gone ↦ rw gone tt
      | inr (ds, here) ↦
          rw here
            (AllEntries-lookup (λ k es. All (IsHeld x s.sequences k) es) key s.store v.held here)
    ]

    pub get_is_retain :
        (filters : Option FilterSet) (now : ℕ)
        → get_descriptors_at s key filters now ≡ retain (is_served s.revoked filters now) stored
    unfolding get_descriptors_at
    get_is_retain filters now = elim (Option-cases (lookup key s.store)) [
      | inl gone ↦ rw (get_descriptors_at, gone) refl
      | inr (ds, here) ↦ rw (get_descriptors_at, here) refl
    ]

    -- In a valid store, by a clock below 2^63, a descriptor is returned for a key exactly if it is
    -- stored under the key, its id is not revoked, its life is not over and it passes the filters;
    -- what is returned lists the key and was found valid when it came in.
    pub get_descriptors_at_iff :
        (filters : Option FilterSet) (now : ℕ) (d : Descriptor)
        → IsClock now
        → (Elem d (get_descriptors_at s key filters now)
            ↔ (Elem d stored × IsServed s.revoked filters now d))
          × (Elem d (get_descriptors_at s key filters now)
              → Elem key d.routing_keys × ((t : ℕ) × (validate x d t ≡ ok tt)))
    get_descriptors_at_iff filters now d clock =
        let test = is_served s.revoked filters now in
        let short = λ (m : Elem d stored).
          let h = All-Elem _ d stored stored-IsHeld m in ttl-le d h.accepted.0 h.accepted.1 in
        rw (get_is_retain filters now) (
          (
            λ m.
                let (n, e) = Elem_of_retain test d stored m in
                (n, (is_served_iff s.revoked now clock d (short n) filters).0 e),
            λ (m, h).
                Elem-retain test d stored
                  ((is_served_iff s.revoked now clock d (short m) filters).1 h) m,
          ),
          λ m.
              let h = All-Elem _ d stored stored-IsHeld (Elem_of_retain test d stored m).0 in
              (h.listed, h.accepted),
        )
