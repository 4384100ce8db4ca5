-- ===== src/Hub/Redb/Slots.antt =====
-- A STORE in mesh-hub/src/storage/redb.rs changes no other slot, whatever its schema.
use mars_protocol.Common.{
  ℕ, ◌≡◌, ◌≢◌, inl, inr, refl, ◌∙◌, ap, false, Bool-cases, Option-cases, Result-cases, Option, none,
  some, lookup, lookup-insert, Text, Bytes, list_eq, nat_eq, ◌==◌, eq_iff,
}
use mars_protocol.Core.External.{External}
use mars_protocol.Core.Descriptor.{Descriptor, validate}
use mars_protocol.Hub.RateLimit.{identity_bytes}
use mars_protocol.Hub.Redb.{
  RedbStorage, DescriptorCodec, hash_bytes, is_stale, check_rate_limit, dedup_key, remove_version,
  write_version, transact, store_descriptor_at,
}
use mars_protocol.Hub.Redb.Keys.{lookup-remove_key}

module _ (x : External) (codec : DescriptorCodec) where
  remove_version-other :
      (s : RedbStorage) (old : Option Bytes) (p : Bytes)
      → old ≢ some p
      → lookup p (remove_version x codec s old).descriptors ≡ lookup p s.descriptors
  unfolding remove_version
  remove_version-other s none p h = refl
  remove_version-other s (some old_id) p h =
      let apart : (old_id == p) ≡ false = elim (Bool-cases (old_id == p)) [
        | inl same ↦ absurd (h (ap some ((eq_iff old_id p).0 same)))
        | inr other ↦ other
      ] in
      lookup-remove_key old_id p s.descriptors ∙ rw apart

  transact-other :
      (s : RedbStorage) (d : Descriptor) (fault : Option Text) (p : Bytes)
      → hash_bytes d.id ≢ p
      → lookup (dedup_key x codec d) s.dedup_index ≢ some p
      → lookup p (transact x codec s d fault).1.descriptors ≡ lookup p s.descriptors
  unfolding transact write_version
  transact-other s d fault p fresh other = elim (Option-cases (codec.encode d)) [
    | inl bad ↦ rw (transact, bad) refl
    | inr (cbor, encoded) ↦ elim (Option-cases fault) [
      | inr (e, failed) ↦ rw (transact, encoded, failed) refl
      | inl clean ↦
          elim (Bool-cases (is_stale d.sequence (lookup (dedup_key x codec d) s.sequences))) [
            | inl stale ↦ rw (transact, encoded, clean, stale) refl
            | inr current ↦
                let old = lookup (dedup_key x codec d) s.dedup_index in
                let apart : (hash_bytes d.id == p) ≡ false =
                  elim (Bool-cases (hash_bytes d.id == p)) [
                    | inl same ↦ absurd (fresh ((eq_iff (hash_bytes d.id) p).0 same))
                    | inr different ↦ different
                  ] in
                rw (transact, encoded, clean, current)
                  (lookup-insert (hash_bytes d.id) p cbor (remove_version x codec s old).descriptors
                    ∙ (rw apart (remove_version-other s old p other)))
          ]
    ]
  ]

  -- A STORE on disk, also of a revocation or a rotation, changes neither on success nor on error
  -- what is stored under an id that is not its own and not that of the version in its slot.
  pub store_descriptor_at-other :
      (s : RedbStorage) (d : Descriptor) (now : ℕ) (fault : Option Text) (p : Bytes)
      → hash_bytes d.id ≢ p
      → lookup (dedup_key x codec d) s.dedup_index ≢ some p
      → lookup p (store_descriptor_at x codec s d now fault).1.descriptors ≡ lookup p s.descriptors
  unfolding store_descriptor_at
  store_descriptor_at-other s d now fault p fresh other =
      let (allowed, rates) = check_rate_limit s.rate_timestamps (identity_bytes d.publisher) now in
      elim (Result-cases (validate x d now)) [
        | inr (e, bad) ↦ rw (store_descriptor_at, bad) refl
        | inl (_, good) ↦ elim (Bool-cases s.skip_rate_limit) [
          | inl skipped ↦
              simp (store_descriptor_at, good, skipped) (transact-other s d fault p fresh other)
          | inr limited ↦ elim (Bool-cases allowed) [
            | inl free ↦
                simp (store_descriptor_at, good, limited, free)
                  (transact-other (record s { rate_timestamps = rates; skip_rate_limit = false }) d
                    fault p fresh other)
            | inr full ↦ simp (store_descriptor_at, good, limited, full) refl
          ]
        ]
      ]
