-- ===== src/Dht/Storage/Shrinks.antt =====
-- What the special schemas of mesh-dht/src/storage.rs do to the index: descriptors go, none comes.
use mars_protocol.Common.{
  Result-cases, ◌≡◌, ◌≢◌, refl, ◌∙◌, Bool, not, ◌&&◌, List, [], ◌∷◌, is_empty, retain, find, All,
  All-append, All-retain, All-retain_map, All_of_Elem, Elem, if◌then◌else◌, ltb, ◌==◌, eq_iff,
  lookup, unwrap_or, Distinct, map_values-Distinct, retain_values-Distinct, AllEntries,
  AllEntries-map_values, AllEntries-retain_values, AllEntries-insert, AllEntries-lookup, arith,
  Bool-cases, Option-cases, inl, inr, Result, ok, err, nat_eq, list_eq,
}
use mars_protocol.Core.External.{External}
use mars_protocol.Core.Hash.{
  Hash, hash_eq, schema_hash_core_revocation, schema_hash_core_key_rotation,
}
use mars_protocol.Core.Identity.{identity_eq}
use mars_protocol.Core.Descriptor.{Descriptor}
use mars_protocol.Dht.Storage.Parse.{StoreError, Rotation, revocation_target, rotation_fields}
use mars_protocol.Dht.Storage.{
  DescriptorStore, Index, dedup_key, dedup_key_eq, retain_all, drop_empty, push_under, all_stored,
  revoke, rotate, process_revocation, process_key_rotation, accept, and_then, process,
}

-- every descriptor in the index satisfies `P`, which may name the key that it is stored under
abbrev pub AllStored : (Hash → Descriptor → Type 0) → Index → Type 0
AllStored P store = AllEntries (λ key ds. All (P key) ds) store

module _ (P : Hash → Descriptor → Type 0) where
  pub AllStored-retain_all :
      (keep : Descriptor → Bool) (store : Index)
      → AllStored P store
      → AllStored P (retain_all keep store)
  unfolding retain_all
  AllStored-retain_all keep store h =
      AllEntries-map_values (λ key ds. All (P key) ds) (λ key ds. All (P key) ds) (retain keep)
        store (λ key ds. All-retain (P key) keep ds) h

  pub AllStored-drop_empty : (store : Index) → AllStored P store → AllStored P (drop_empty store)
  unfolding drop_empty
  AllStored-drop_empty store h =
      AllEntries-retain_values (λ key ds. All (P key) ds) (λ v. not (is_empty v)) store h

  pub stored_at :
      (key : Hash) (store : Index)
      → AllStored P store
      → All (P key) (unwrap_or (lookup key store) [])
  stored_at key store h = elim (Option-cases (lookup key store)) [
    | inl gone ↦ rw gone tt
    | inr (ds, here) ↦ rw here (AllEntries-lookup (λ k es. All (P k) es) key store h here)
  ]

  pub AllStored-push_under :
      (keys : List Hash) (d : Descriptor) (store : Index)
      → All (λ key. P key d) keys
      → AllStored P store
      → AllStored P (push_under keys d store)
  unfolding push_under
  AllStored-push_under [] d store g h = h
  AllStored-push_under (key ∷ keys) d store g h = AllStored-push_under keys d _ g.1 (
      AllEntries-insert (λ k es. All (P k) es) key _ store
        (All-append (P key) _ _ (stored_at key store h) (g.0, tt)) h)

  -- After `accept`, what held of the descriptors in other slots holds, and what holds of the new one.
  pub AllStored-accept :
      (x : External) (s : DescriptorStore) (d : Descriptor) (Q : Hash → Descriptor → Type 0)
      → AllStored Q s.store
      → ((key : Hash) (e : Descriptor) → Q key e → dedup_key e ≢ dedup_key d → P key e)
      → ((key : Hash) → Elem key d.routing_keys → P key d)
      → AllStored P (accept x s d).store
  unfolding retain_all
  AllStored-accept x s d Q h old fresh =
      let others = λ (e : Descriptor). not (dedup_key e == dedup_key d) in
      AllStored-push_under d.routing_keys d _ (All_of_Elem _ d.routing_keys fresh) (
        AllEntries-map_values (λ k es. All (Q k) es) (λ k es. All (P k) es) (retain others) s.store
          (λ k es. All-retain_map (Q k) (P k) others es (λ e q t.
            old k e q (λ same. ground (arith, (eq_iff (dedup_key e) (dedup_key d)).1 same))))
          h)

-- an index after the special schemas: some descriptors taken out, none added
pub data Shrinks (store : Index) : Index → Type 0 where
  same : Shrinks store store
  filtered :
      {t : Index} (keep : Descriptor → Bool) → Shrinks store t → Shrinks store (retain_all keep t)
  compacted : {t : Index} → Shrinks store t → Shrinks store (drop_empty t)

Shrinks-trans : {a b c : Index} → Shrinks a b → Shrinks b c → Shrinks a c
Shrinks-trans p same = p
Shrinks-trans p (filtered keep q) = filtered keep (Shrinks-trans p q)
Shrinks-trans p (compacted q) = compacted (Shrinks-trans p q)

pub Shrinks-AllStored :
    (P : Hash → Descriptor → Type 0) {a b : Index} → Shrinks a b → AllStored P a → AllStored P b
Shrinks-AllStored P same h = h
Shrinks-AllStored P (filtered {t = t} keep p) h =
    AllStored-retain_all P keep t (Shrinks-AllStored P p h)
Shrinks-AllStored P (compacted {t = t} p) h = AllStored-drop_empty P t (Shrinks-AllStored P p h)

pub Shrinks-Distinct : {a b : Index} → Shrinks a b → Distinct a → Distinct b
unfolding retain_all drop_empty
Shrinks-Distinct same h = h
Shrinks-Distinct (filtered {t = t} keep p) h =
    map_values-Distinct (retain keep) t (Shrinks-Distinct p h)
Shrinks-Distinct (compacted {t = t} p) h =
    retain_values-Distinct (λ v. not (is_empty v)) t (Shrinks-Distinct p h)

-- what the special schemas leave alone
pub record OnlyShrinks (s t : DescriptorStore) : Type 0 where
  pub store : Shrinks s.store t.store
  pub sequences : t.sequences ≡ s.sequences
  pub rate_limiter : t.rate_limiter ≡ s.rate_limiter

OnlyShrinks-refl : (s : DescriptorStore) → OnlyShrinks s s
OnlyShrinks-refl s = record { store = same; sequences = refl; rate_limiter = refl }

revoke-OnlyShrinks :
    (s : DescriptorStore) (d : Descriptor) (target : Hash) → OnlyShrinks s (revoke s d target).1
unfolding revoke
revoke-OnlyShrinks s d target =
    elim (Option-cases (find (λ e. e.id == target) (all_stored s.store))) [
      | inl unknown ↦
          rw (unknown, revoke) (record { store = same; sequences = refl; rate_limiter = refl })
      | inr (e, known) ↦ elim (Bool-cases (d.publisher == e.publisher)) [
        | inl own ↦
            rw (known, revoke, own)
              (record {
                store = compacted (filtered _ same);
                sequences = refl;
                rate_limiter = refl;
              })
        | inr foreign ↦
            rw (known, revoke, foreign)
              (record { store = filtered _ same; sequences = refl; rate_limiter = refl })
      ]
    ]

rotate-OnlyShrinks :
    (s : DescriptorStore) (d : Descriptor) (r : Rotation) → OnlyShrinks s (rotate s d r).1
unfolding rotate
rotate-OnlyShrinks s d r = elim (Option-cases (lookup r.old_identity s.rotations)) [
  | inl first ↦ rw (first, rotate) (record { store = same; sequences = refl; rate_limiter = refl })
  | inr ((i, n), known) ↦ elim (Bool-cases (r.rotation_seq == n && not (i == r.new_identity))) [
    | inl fork ↦
        rw (known, rotate, fork)
          (record { store = filtered _ same; sequences = refl; rate_limiter = refl })
    | inr plain ↦ elim (Bool-cases (ltb r.rotation_seq n)) [
      | inl stale ↦
          rw (known, rotate, plain, stale)
            (record { store = filtered _ same; sequences = refl; rate_limiter = refl })
      | inr newer ↦
          rw (known, rotate, plain, newer)
            (record { store = same; sequences = refl; rate_limiter = refl })
    ]
  ]
]

and_then-OnlyShrinks :
    (s : DescriptorStore) (r : Result StoreError (Unit {0}) × DescriptorStore)
    (f : DescriptorStore → Result StoreError (Unit {0}) × DescriptorStore)
    → OnlyShrinks s r.1
    → ((t : DescriptorStore) → OnlyShrinks t (f t).1)
    → OnlyShrinks s (and_then r f).1
and_then-OnlyShrinks s (ok u, t) f h g =
    let k = g t in
    record {
      store = Shrinks-trans h.store k.store;
      sequences = k.sequences ∙ h.sequences;
      rate_limiter = k.rate_limiter ∙ h.rate_limiter;
    }
and_then-OnlyShrinks s (err e, t) f h g = h

module _ (x : External) where
  process_revocation-OnlyShrinks :
      (s : DescriptorStore) (d : Descriptor) → OnlyShrinks s (process_revocation x s d).1
  unfolding process_revocation
  process_revocation-OnlyShrinks s d = elim (Result-cases (revocation_target x d.payload)) [
    | inl (target, e) ↦ rw (e, process_revocation) (revoke-OnlyShrinks s d target)
    | inr (f, e) ↦ rw (e, process_revocation) (OnlyShrinks-refl s)
  ]

  process_key_rotation-OnlyShrinks :
      (s : DescriptorStore) (d : Descriptor) → OnlyShrinks s (process_key_rotation x s d).1
  unfolding process_key_rotation
  process_key_rotation-OnlyShrinks s d = elim (Result-cases (rotation_fields x d.payload)) [
    | inl (r, e) ↦ rw (e, process_key_rotation) (rotate-OnlyShrinks s d r)
    | inr (f, e) ↦ rw (e, process_key_rotation) (OnlyShrinks-refl s)
  ]

  pub process-OnlyShrinks : (s : DescriptorStore) (d : Descriptor) → OnlyShrinks s (process x s d).1
  unfolding process
  process-OnlyShrinks s d =
      and_then-OnlyShrinks s
        (if d.schema_hash == schema_hash_core_revocation x
          then process_revocation x s d
          else (ok tt, s))
        (λ s'.
          if d.schema_hash == schema_hash_core_key_rotation x
          then process_key_rotation x s' d
          else (ok tt, s'))
        (elim (Bool-cases (d.schema_hash == schema_hash_core_revocation x)) [
          | inl special ↦ rw special (process_revocation-OnlyShrinks s d)
          | inr plain ↦ rw plain (OnlyShrinks-refl s)
        ])
        (λ t. elim (Bool-cases (d.schema_hash == schema_hash_core_key_rotation x)) [
          | inl special ↦ rw special (process_key_rotation-OnlyShrinks t d)
          | inr plain ↦ rw plain (OnlyShrinks-refl t)
        ])
