-- ===== src/Dht/Storage/Later.antt =====
-- What only grows in the store of mesh-dht/src/storage.rs, whatever is called: the revoked
-- ids, the sequence of each slot and the rotation of each identity.
use mars_protocol.Common.{
  Result-cases, any_iff, ℕ, ◌≤◌, ◌<◌, ◌≡◌, ◌⊎◌, refl, sym, ap, subst, ◌∙◌, false, not, ◌&&◌, some,
  List, any, find, Elem, if◌then◌else◌, ltb, ◌==◌, eq_iff, lookup, insert, lookup-insert, arith,
  Bool-cases, Option-cases, inl, inr, Result, ok, err, nat_eq, list_eq, Bytes,
}
use mathlib.Core.Option.{some-injective}
use mars_protocol.Core.External.{External}
use mars_protocol.Core.Hash.{
  Hash, hash_eq, schema_hash_core_revocation, schema_hash_core_key_rotation,
}
use mars_protocol.Core.Identity.{Identity, identity_eq}
use mars_protocol.Core.Descriptor.{Descriptor}
use mars_protocol.Dht.Storage.Parse.{StoreError, Rotation, revocation_target, rotation_fields}
use mars_protocol.Dht.Storage.Cases.{store-StoreCase, rejected, limited, stale, written, recorded}
use mars_protocol.Dht.Storage.{
  DescriptorStore, DedupKey, dedup_key, dedup_key_eq, all_stored, set_insert, revoke, rotate,
  process_revocation, process_key_rotation, and_then, accept, process, store_descriptor_at,
  evict_expired_at,
}

pub set_insert_keeps : (k h : Hash) (hs : List Hash) → Elem h hs → Elem h (set_insert k hs)
unfolding set_insert
set_insert_keeps k h hs m = elim (Bool-cases (any (λ j. j == k) hs)) [
  | inl known ↦ rw known m
  | inr fresh ↦ rw fresh (inr m)
]

pub set_insert_adds : (h : Hash) (hs : List Hash) → Elem h (set_insert h hs)
unfolding set_insert
set_insert_adds h hs = elim (Bool-cases (any (λ j. j == h) hs)) [
  | inl known ↦ rw known ((any_iff h hs).0 known)
  | inr fresh ↦ rw fresh (inl refl)
]

-- the later rotation of an identity: a greater number, or the same number and the same successor
abbrev pub Succeeds : Identity × ℕ → Identity × ℕ → Type 0
Succeeds (i, n) (j, m) = (n < m) ⊎ ((n ≡ m) × (i ≡ j))

Succeeds-trans : (a b c : Identity × ℕ) → Succeeds a b → Succeeds b c → Succeeds a c
Succeeds-trans a b c (inl p) (inl q) = inl (omega arith)
Succeeds-trans a b c (inl p) (inr q) = inl (omega (arith, q.0))
Succeeds-trans a b c (inr p) (inl q) = inl (omega (arith, p.0))
Succeeds-trans a b c (inr p) (inr q) = inr (p.0 ∙ q.0, p.1 ∙ q.1)

pub record Later (s t : DescriptorStore) : Type 0 where
  pub revoked : (h : Hash) → Elem h s.revoked → Elem h t.revoked
  pub sequences :
      (k : DedupKey) (n : ℕ)
      → lookup k s.sequences ≡ some n
      → (m : ℕ) × (lookup k t.sequences ≡ some m) × (n ≤ m)
  pub rotations :
      (k : Bytes) (r : Identity × ℕ)
      → lookup k s.rotations ≡ some r
      → (r' : Identity × ℕ) × (lookup k t.rotations ≡ some r') × Succeeds r r'

pub Later-refl : (s : DescriptorStore) → Later s s
Later-refl s = record {
  revoked = λ h m. m;
  sequences = λ k n e. (n, e, omega arith);
  rotations = λ k r e. (r, e, inr (refl, refl));
}

pub Later-trans : {a b c : DescriptorStore} → Later a b → Later b c → Later a c
Later-trans p q = record {
  revoked = λ h m. q.revoked h (p.revoked h m);
  sequences = λ k n e.
      let (m, f, le) = p.sequences k n e in
      let (m', f', le') = q.sequences k m f in (m', f', omega arith);
  rotations = λ k r e.
      let (r', f, le) = p.rotations k r e in
      let (r'', f', le') = q.rotations k r' f in (r'', f', Succeeds-trans r r' r'' le le');
}

Later-revoked :
    (s t : DescriptorStore)
    → ((h : Hash) → Elem h s.revoked → Elem h t.revoked)
    → t.sequences ≡ s.sequences
    → t.rotations ≡ s.rotations
    → Later s t
Later-revoked s t g p q = record {
  revoked = g;
  sequences = λ k n e. (n, ap (lookup k) p ∙ e, omega arith);
  rotations = λ k r e. (r, ap (lookup k) q ∙ e, inr (refl, refl));
}

revoke-Later :
    (s : DescriptorStore) (d : Descriptor) (target : Hash) → Later s (revoke s d target).1
unfolding revoke
revoke-Later s d target = elim (Option-cases (find (λ e. e.id == target) (all_stored s.store))) [
  | inl unknown ↦
      rw (revoke, unknown) (Later-revoked _ _ (λ h m. set_insert_keeps target h _ m) refl refl)
  | inr (e, known) ↦ elim (Bool-cases (d.publisher == e.publisher)) [
    | inl own ↦
        rw (revoke, known, own)
          (Later-revoked _ _ (λ h m. set_insert_keeps target h _ (set_insert_keeps target h _ m))
            refl refl)
    | inr foreign ↦ rw (revoke, known, foreign) (Later-revoked _ _ (λ h m. m) refl refl)
  ]
]

-- a rotation that is written: none is known, or it succeeds the known one
Later-rotated :
    (s : DescriptorStore) (k : Bytes) (r : Identity × ℕ)
    → ((old : Identity × ℕ) → lookup k s.rotations ≡ some old → Succeeds old r)
    → Later s (record s { rotations = insert k r s.rotations })
Later-rotated s k r g = record {
  revoked = λ h m. m;
  sequences = λ j n e. (n, e, omega arith);
  rotations = λ j old e. elim (Bool-cases (k == j)) [
    | inl same ↦ (
      r,
      lookup-insert k j r s.rotations ∙ rw same refl,
      g old (subst (λ i. lookup i s.rotations ≡ some old) (sym ((eq_iff k j).0 same)) e),
    )
    | inr other ↦ (old, lookup-insert k j r s.rotations ∙ rw other e, inr (refl, refl))
  ];
}

newer-Succeeds :
    (r : Rotation) (i : Identity) (n : ℕ)
    → (r.rotation_seq == n && not (i == r.new_identity)) ≡ false
    → ltb r.rotation_seq n ≡ false
    → Succeeds (i, n) (r.new_identity, r.rotation_seq)
newer-Succeeds r i n plain newer = elim (Bool-cases (r.rotation_seq == n)) [
  | inl same ↦ inr (ground arith, ground (arith, eq_iff i r.new_identity))
  | inr other ↦ inl (ground arith)
]

rotate-Later : (s : DescriptorStore) (d : Descriptor) (r : Rotation) → Later s (rotate s d r).1
unfolding rotate
rotate-Later s d r = elim (Option-cases (lookup r.old_identity s.rotations)) [
  | inl first ↦ rw (rotate, first) (Later-rotated s r.old_identity _ (λ old e. absurd cc))
  | inr ((i, n), known) ↦ elim (Bool-cases (r.rotation_seq == n && not (i == r.new_identity))) [
    | inl fork ↦ rw (rotate, known, fork) (Later-revoked _ _ (λ h m. m) refl refl)
    | inr plain ↦ elim (Bool-cases (ltb r.rotation_seq n)) [
      | inl older ↦ rw (rotate, known, plain, older) (Later-revoked _ _ (λ h m. m) refl refl)
      | inr newer ↦
          rw (rotate, known, plain, newer)
            (Later-rotated s r.old_identity _ (λ old e.
              subst (λ o. Succeeds o (r.new_identity, r.rotation_seq))
                (some-injective (i, n) old (sym known ∙ e)) (newer-Succeeds r i n plain newer)))
    ]
  ]
]

and_then-Later :
    (s : DescriptorStore) (r : Result StoreError (Unit {0}) × DescriptorStore)
    (f : DescriptorStore → Result StoreError (Unit {0}) × DescriptorStore)
    → Later s r.1
    → ((t : DescriptorStore) → Later t (f t).1)
    → Later s (and_then r f).1
and_then-Later s (ok u, t) f h g = Later-trans h (g t)
and_then-Later s (err e, t) f h g = h

module _ (x : External) where
  process_revocation-Later :
      (s : DescriptorStore) (d : Descriptor) → Later s (process_revocation x s d).1
  unfolding process_revocation
  process_revocation-Later s d = elim (Result-cases (revocation_target x d.payload)) [
    | inl (target, e) ↦ rw (process_revocation, e) (revoke-Later s d target)
    | inr (f, e) ↦ rw (process_revocation, e) (Later-refl s)
  ]

  process_key_rotation-Later :
      (s : DescriptorStore) (d : Descriptor) → Later s (process_key_rotation x s d).1
  unfolding process_key_rotation
  process_key_rotation-Later s d = elim (Result-cases (rotation_fields x d.payload)) [
    | inl (r, e) ↦ rw (process_key_rotation, e) (rotate-Later s d r)
    | inr (f, e) ↦ rw (process_key_rotation, e) (Later-refl s)
  ]

  process-Later : (s : DescriptorStore) (d : Descriptor) → Later s (process x s d).1
  unfolding process
  process-Later s d =
      and_then-Later s
        (if d.schema_hash == schema_hash_core_revocation x
          then process_revocation x s d
          else (ok tt, s))
        (λ s'.
          if d.schema_hash == schema_hash_core_key_rotation x
          then process_key_rotation x s' d
          else (ok tt, s'))
        (elim (Bool-cases (d.schema_hash == schema_hash_core_revocation x)) [
          | inl special ↦ rw special (process_revocation-Later s d)
          | inr plain ↦ rw plain (Later-refl s)
        ])
        (λ t. elim (Bool-cases (d.schema_hash == schema_hash_core_key_rotation x)) [
          | inl special ↦ rw special (process_key_rotation-Later t d)
          | inr plain ↦ rw plain (Later-refl t)
        ])

  accept-Later :
      (s : DescriptorStore) (d : Descriptor)
      → ((current : ℕ) → lookup (dedup_key d) s.sequences ≡ some current → current ≤ d.sequence)
      → Later s (accept x s d)
  accept-Later s d newest = record {
    revoked = λ h m. m;
    rotations = λ k r e. (r, e, inr (refl, refl));
    sequences = λ k n e. elim (Bool-cases (dedup_key d == k)) [
      | inl same ↦ (
        d.sequence,
        lookup-insert (dedup_key d) k d.sequence s.sequences ∙ rw same refl,
        newest n
            (subst (λ j. lookup j s.sequences ≡ some n) (sym ((eq_iff (dedup_key d) k).0 same)) e),
      )
      | inr other ↦
          (n, lookup-insert (dedup_key d) k d.sequence s.sequences ∙ rw other e, omega arith)
    ];
  }

  recorded-Later : (s : DescriptorStore) (d : Descriptor) (now : ℕ) → Later s (recorded x s d now)
  recorded-Later s d now = Later-revoked _ _ (λ h m. m) refl refl

  pub store_descriptor_at-Later :
      (s : DescriptorStore) (d : Descriptor) (now : ℕ) → Later s (store_descriptor_at x s d now).1
  store_descriptor_at-Later s d now = elim (store-StoreCase x s d now) [
    | rejected e bad here ↦ rw here (Later-refl s)
    | limited good refused here ↦ rw here (recorded-Later s d now)
    | stale current good allowed known older here ↦ rw here (recorded-Later s d now)
    | written fresh here ↦ rw here (
        Later-trans (recorded-Later s d now) (
          Later-trans (accept-Later (recorded x s d now) d fresh.newest)
            (process-Later (accept x (recorded x s d now) d) d)))
  ]

  pub evict_expired_at-Later : (s : DescriptorStore) (now : ℕ) → Later s (evict_expired_at s now)
  unfolding evict_expired_at
  evict_expired_at-Later s now = Later-revoked _ _ (λ h m. m) refl refl
