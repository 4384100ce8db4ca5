-- ===== src/Dht/Storage/Write.antt =====
-- What a STORE of mesh-dht/src/storage.rs writes, for descriptors of any but the two special schemas.
use mars_protocol.Common.{
  ℕ, ◌≡◌, ◌≢◌, ◌↔◌, refl, sym, ap, subst, ◌∙◌, Bool, false, not, none, List, [], ◌∷◌, ◌++◌, retain,
  Elem, Elem-append_left, Elem-append_right, Elem-retain, ◌==◌, eq_iff, lookup, lookup-insert,
  lookup-insert_self, lookup-map_values, unwrap_or, arith, Bool-cases, Option-cases, inl, inr,
  Result, ok, IsClock, IsU32, nat_eq, list_eq,
}
use mars_protocol.Core.External.{External}
use mars_protocol.Core.Hash.{
  Hash, hash_eq, schema_hash_core_revocation, schema_hash_core_key_rotation,
}
use mars_protocol.Core.Descriptor.{Descriptor}
use mars_protocol.Core.Descriptor.Validity.{validate_iff}
use mars_protocol.Dht.Storage.Parse.{StoreError}
use mars_protocol.Dht.Storage.Shrinks.{AllStored, AllStored-accept}
use mars_protocol.Dht.Storage.Cases.{
  store-IsFresh, store-StoreCase, rejected, limited, stale, written, IsFresh, recorded,
}
use mars_protocol.Dht.Storage.Invariant.{IsValid, IsHeld, store_descriptor_at-IsValid}
use mars_protocol.Dht.Storage.Serve.{get_descriptors_at_iff}
use mars_protocol.Dht.Storage.{
  DescriptorStore, Index, dedup_key, dedup_key_eq, retain_all, push_under, accept, process,
  store_descriptor_at, get_descriptors_at,
}

abbrev pub under : Index → Hash → List Descriptor
under store key = unwrap_or (lookup key store) []

pub push_under_keeps :
    (keys : List Hash) (d e : Descriptor) (store : Index) (key : Hash)
    → Elem e (under store key)
    → Elem e (under (push_under keys d store) key)
unfolding push_under
push_under_keeps [] d e store key m = m
push_under_keeps (k ∷ keys) d e store key m = push_under_keeps keys d e _ key (
    rw (lookup-insert k key (under store k ++ d ∷ []) store) (elim (Bool-cases (k == key)) [
      | inr other ↦ rw other m
      | inl same ↦ rw same (
          Elem-append_left e (under store k) (d ∷ [])
            (subst (λ j. Elem e (under store j)) (sym ((eq_iff k key).0 same)) m))
    ]))

push_under_adds :
    (keys : List Hash) (d : Descriptor) (store : Index) (key : Hash)
    → Elem key keys
    → Elem d (under (push_under keys d store) key)
unfolding push_under
push_under_adds [] d store key m = elim m [ ]
push_under_adds (k ∷ keys) d store key (inr m) = push_under_adds keys d _ key m
push_under_adds (k ∷ keys) d store key (inl same) = push_under_keeps keys d d _ key (
    rw (same, lookup-insert_self key (under store key ++ d ∷ []) store)
      (Elem-append_right d (under store key) (d ∷ []) (inl refl)))

pub under-retain_all :
    (keep : Descriptor → Bool) (store : Index) (key : Hash)
    → under (retain_all keep store) key ≡ retain keep (under store key)
unfolding retain_all
under-retain_all keep store key = elim (Option-cases (lookup key store)) [
  | inl gone ↦ rw (lookup-map_values (retain keep) key store, gone) refl
  | inr (ds, here) ↦ rw (lookup-map_values (retain keep) key store, here) refl
]

module _ (x : External) where
  -- The new descriptor stands under each of its keys, and what stands in other slots stays.
  pub accept_adds :
      (s : DescriptorStore) (d : Descriptor) (key : Hash)
      → Elem key d.routing_keys
      → Elem d (under (accept x s d).store key)
  accept_adds s d key m = push_under_adds d.routing_keys d _ key m

  pub accept_keeps :
      (s : DescriptorStore) (d e : Descriptor) (key : Hash)
      → dedup_key e ≢ dedup_key d
      → Elem e (under s.store key)
      → Elem e (under (accept x s d).store key)
  accept_keeps s d e key ne m =
      let others = λ (f : Descriptor). not (dedup_key f == dedup_key d) in
      push_under_keeps d.routing_keys d e _ key (
        rw (under-retain_all others s.store key)
          (Elem-retain others e _ (ground (arith, eq_iff (dedup_key e) (dedup_key d), ne)) m))

  -- neither a revocation nor a key rotation
  pub record IsPlain (d : Descriptor) : Type 0 where
    pub no_revocation : d.schema_hash ≢ schema_hash_core_revocation x
    pub no_rotation : d.schema_hash ≢ schema_hash_core_key_rotation x

  process-IsPlain : (s : DescriptorStore) (d : Descriptor) → IsPlain d → process x s d ≡ (ok tt, s)
  unfolding process
  process-IsPlain s d p =
      let no : (h : Hash) → d.schema_hash ≢ h → (d.schema_hash == h) ≡ false =
        λ h ne. ground (arith, eq_iff d.schema_hash h, ne) in
      rw (no _ p.no_revocation, no _ p.no_rotation) refl

  -- what a reader and the other publishers see of a STORE that succeeded
  pub record IsWritten (s s' : DescriptorStore) (d : Descriptor) (now : ℕ) : Type 0 where
    pub served :
        (key : Hash)
        → Elem key d.routing_keys
        → (Elem d.id s.revoked → ⊥)
        → Elem d (get_descriptors_at s' key none now)
    pub only : AllStored (λ key e. dedup_key e ≡ dedup_key d → e ≡ d) s'.store
    pub kept :
        (key : Hash) (e : Descriptor)
        → dedup_key e ≢ dedup_key d
        → Elem e (under s.store key)
        → Elem e (under s'.store key)

  module _ (s : DescriptorStore) (v : IsValid x s) (d : Descriptor) (p : IsPlain d) (now : ℕ) where
    abbrev after : DescriptorStore
    after = (store_descriptor_at x s d now).1

    accepted :
        IsFresh x s d now → store_descriptor_at x s d now ≡ (ok tt, accept x (recorded x s d now) d)
    accepted f = store-IsFresh x s d now f ∙ process-IsPlain _ d p

    IsWritten-accept :
        IsClock now
        → IsU32 d.ttl
        → IsFresh x s d now
        → IsWritten s (accept x (recorded x s d now) d) d now
    IsWritten-accept clock word f =
        let start = recorded x s d now in
        let s' = accept x start d in
        let valid =
          subst (IsValid x) (ap (λ r. r.1) (accepted f))
            (store_descriptor_at-IsValid x s d now v) in
        record {
          served = λ key m fine. ((get_descriptors_at_iff x s' valid key none now d clock).0).1 (
            accept_adds start d key m,
            record {
              unrevoked = fine;
              alive = ((validate_iff x d now clock word).0 f.valid).alive;
              passes = λ g e. cc;
            },
          );
          only =
              AllStored-accept (λ key e. dedup_key e ≡ dedup_key d → e ≡ d) x start d
                (IsHeld x s.sequences) v.held (λ key e h ne same. absurd (ne same))
                (λ key m same. refl);
          kept = λ key e. accept_keeps start d e key;
        }

    abbrev Answers : Result StoreError (Unit {0}) × DescriptorStore → Type 0
    Answers (r, s') =
        ((r ≡ ok tt) ↔ IsFresh x s d now)
        × (r ≡ ok tt → IsWritten s s' d now)
        × (r ≢ ok tt → s' ≡ record s { rate_limiter = s'.rate_limiter })

    pub store_descriptor_at_iff :
        IsClock now
        → IsU32 d.ttl
        → (((store_descriptor_at x s d now).0 ≡ ok tt) ↔ IsFresh x s d now)
          × ((store_descriptor_at x s d now).0 ≡ ok tt → IsWritten s after d now)
          × ((store_descriptor_at x s d now).0 ≢ ok tt
              → after ≡ record s { rate_limiter = after.rate_limiter })
    store_descriptor_at_iff clock word = elim (store-StoreCase x s d now) [
      | rejected e bad here ↦
          subst Answers (sym here) ((λ r. absurd cc, λ f. absurd cc), λ r. absurd cc, λ r. refl)
      | limited good refused here ↦
          subst Answers (sym here) ((λ r. absurd cc, λ f. absurd cc), λ r. absurd cc, λ r. refl)
      | stale current good allowed known older here ↦ subst Answers (sym here) (
        (λ r. absurd cc, λ f. absurd (omega (arith, f.newest current known))),
        λ r. absurd cc,
        λ r. refl,
      )
      | written fresh here ↦
          subst Answers (sym (here ∙ process-IsPlain (accept x (recorded x s d now) d) d p))
            ((λ r. fresh, λ f. refl), λ r. IsWritten-accept clock word fresh, λ r. absurd (r refl))
    ]
