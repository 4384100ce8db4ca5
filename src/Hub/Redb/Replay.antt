-- ===== src/Hub/Redb/Replay.antt =====
-- Removal of what has expired, mesh-hub/src/storage/redb.rs: the sequence of the slot goes too.
use mars_protocol.Common.{
  ℕ, ◌≡◌, inl, inr, refl, sym, ◌∙◌, ap, subst, Bool, true, false, not, Bool-cases, Option-cases,
  none, some, List, [], ◌∷◌, Elem, arith, HashMap, lookup, ok, Bytes, list_eq, nat_eq, ◌==◌, eq_iff,
}
use mars_protocol.Core.External.{External}
use mars_protocol.Core.Descriptor.{Descriptor, validate}
use mars_protocol.Hub.RateLimit.{identity_bytes}
use mars_protocol.Hub.Redb.{
  RedbStorage, DescriptorCodec, check_rate_limit, dedup_key, transact, store_descriptor_at,
  is_alive, read_where, forget, forget_all, evict_expired_at,
}
use mars_protocol.Hub.Redb.Keys.{lookup-remove_key}

module _ (x : External) (codec : DescriptorCodec) where
  Elem-read_where :
      (keep : Descriptor → Bool) (id cbor : Bytes) (table : HashMap Bytes Bytes) (d : Descriptor)
      → lookup id table ≡ some cbor
      → codec.decode cbor ≡ some d
      → keep d ≡ true
      → Elem d (read_where x codec keep table)
  unfolding lookup read_where
  Elem-read_where keep id cbor [] d found read kept = absurd cc
  Elem-read_where keep id cbor ((j, b) ∷ table) d found read kept = elim (Bool-cases (j == id)) [
    | inl here ↦
        let same : b ≡ cbor = ground arith in
        let reads : codec.decode b ≡ some d = ap codec.decode same ∙ read in
        rw (read_where, reads, kept) (inl refl)
    | inr there ↦
        let below = Elem-read_where keep id cbor table d (ground arith) read kept in
        elim (Option-cases (codec.decode b)) [
          | inl unread ↦ rw (read_where, unread) below
          | inr (other, reads) ↦ elim (Bool-cases (keep other)) [
            | inl also ↦ rw (read_where, reads, also) (inr below)
            | inr not_kept ↦ rw (read_where, reads, not_kept) below
          ]
        ]
  ]

  forget_all-none :
      (ds : List Descriptor) (s : RedbStorage) (key : Bytes)
      → lookup key s.sequences ≡ none
      → lookup key (forget_all x codec s ds).sequences ≡ none
  unfolding forget_all
  forget_all-none [] s key h = h
  forget_all-none (d ∷ ds) s key h =
      forget_all-none ds (forget x codec s d) key
        (ground (arith, lookup-remove_key (dedup_key x codec d) key s.sequences))

  forget_all-forgets :
      (ds : List Descriptor) (s : RedbStorage) (d : Descriptor)
      → Elem d ds
      → lookup (dedup_key x codec d) (forget_all x codec s ds).sequences ≡ none
  unfolding forget_all
  forget_all-forgets [] s d h = elim h [ ]
  forget_all-forgets (c ∷ ds) s d (inl same) =
      subst
        (λ e.
          lookup (dedup_key x codec e) (forget_all x codec (forget x codec s c) ds).sequences
          ≡ none)
        same
        (forget_all-none ds (forget x codec s c) (dedup_key x codec c) (
          ground (
            arith,
            lookup-remove_key (dedup_key x codec c) (dedup_key x codec c) s.sequences,
            eq_iff (dedup_key x codec c) (dedup_key x codec c),
          )))
  forget_all-forgets (c ∷ ds) s d (inr h) = forget_all-forgets ds (forget x codec s c) d h

  transact-ok :
      (s : RedbStorage) (d : Descriptor) (body : Bytes)
      → codec.encode d ≡ some body
      → lookup (dedup_key x codec d) s.sequences ≡ none
      → (transact x codec s d none).0 ≡ ok tt
  unfolding transact
  transact-ok s d body encoded gone = rw (transact, encoded, gone) refl

  -- Once an expired descriptor is removed from the disk, an older version of its slot that is
  -- still valid is stored, whatever its sequence, if it has a CBOR form, the rate allows it, and
  -- the database does not fail.
  pub evict_expired_at-replay :
      (s : RedbStorage) (t now : ℕ) (id cbor body : Bytes) (d older : Descriptor)
      → lookup id s.descriptors ≡ some cbor
      → codec.decode cbor ≡ some d
      → is_alive x codec t d ≡ false
      → dedup_key x codec older ≡ dedup_key x codec d
      → validate x older now ≡ ok tt
      → codec.encode older ≡ some body
      → (check_rate_limit
          (evict_expired_at x codec s t).rate_timestamps
          (identity_bytes older.publisher)
          now).0
        ≡ true
      → (store_descriptor_at x codec (evict_expired_at x codec s t) older now none).0 ≡ ok tt
  unfolding store_descriptor_at evict_expired_at
  evict_expired_at-replay s t now id cbor body d older found read dead slot valid encoded free =
      let after = evict_expired_at x codec s t in
      let gone : lookup (dedup_key x codec older) after.sequences ≡ none =
        subst (λ k. lookup k after.sequences ≡ none) (sym slot)
          (forget_all-forgets _ s d (
            Elem-read_where (λ c. not (is_alive x codec t c)) id cbor s.descriptors d found read
              (ground arith))) in
      elim (Bool-cases after.skip_rate_limit) [
        | inl skipped ↦
            simp (store_descriptor_at, valid, skipped) (transact-ok after older body encoded gone)
        | inr limited ↦
            simp (store_descriptor_at, valid, limited, free) (transact-ok _ older body encoded gone)
      ]
