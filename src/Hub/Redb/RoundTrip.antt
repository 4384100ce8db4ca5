-- ===== src/Hub/Redb/RoundTrip.antt =====
-- What is stored in mesh-hub/src/storage/redb.rs is read back under each of its routing keys.
use mars_protocol.Common.{
  ℕ, ◌≡◌, inl, inr, refl, sym, ◌∙◌, ap, subst, true, false, Bool-cases, Option-cases, Result-cases,
  Option, none, some, List, [], ◌∷◌, ◌++◌, Elem, Elem-append_left, Elem-append_right, any, any_iff,
  arith, HashMap, lookup, insert, lookup-insert, lookup-insert_self, unwrap_or, Result, ok, Text,
  Bytes, list_eq, nat_eq, ◌==◌, eq_iff, if◌then◌else◌,
}
use mars_protocol.Core.External.{External}
use mars_protocol.Core.Hash.{Hash}
use mars_protocol.Core.Descriptor.{Descriptor, validate}
use mars_protocol.Dht.Storage.{matches}
use mars_protocol.Hub.RateLimit.{identity_bytes}
use mars_protocol.Hub.Redb.{
  RedbStorage, RedbError, DescriptorCodec, hash_bytes, insert_value, list_under, is_stale,
  check_rate_limit, dedup_key, remove_version, write_version, transact, store_descriptor_at,
  is_alive, read_ids, get_descriptors_at,
}

abbrev values_of : HashMap Bytes (List Bytes) → Bytes → List Bytes
values_of m k = unwrap_or (lookup k m) []

Elem-insert_value :
    (k v : Bytes) (m : HashMap Bytes (List Bytes)) → Elem v (values_of (insert_value k v m) k)
unfolding insert_value
Elem-insert_value k v m =
    let values = values_of m k in
    elim (Bool-cases (any (λ u. u == v) values)) [
      | inl old ↦ rw (old, lookup-insert_self k values m) ((any_iff v values).0 old)
      | inr new ↦
          rw (new, lookup-insert_self k (values ++ v ∷ []) m)
            (Elem-append_right v values (v ∷ []) (inl refl))
    ]

Elem-insert_value-kept :
    (k v u probe : Bytes) (m : HashMap Bytes (List Bytes))
    → Elem u (values_of m probe)
    → Elem u (values_of (insert_value k v m) probe)
unfolding insert_value
Elem-insert_value-kept k v u probe m h =
    let values = values_of m k in
    let grown = if any (λ u. u == v) values then values else values ++ v ∷ [] in
    elim (Bool-cases (k == probe)) [
      | inr other ↦ rw (lookup-insert k probe grown m, other) h
      | inl same ↦
          let here : Elem u values =
            subst (λ i. Elem u (values_of m i)) (sym ((eq_iff k probe).0 same)) h in
          rw (lookup-insert k probe grown m, same)
            (elim (Bool-cases (any (λ u. u == v) values)) [
              | inl old ↦ rw old here
              | inr new ↦ rw new (Elem-append_left u values (v ∷ []) here)
            ])
    ]

list_under-kept :
    (rks : List Hash) (id probe : Bytes) (m : HashMap Bytes (List Bytes))
    → Elem id (values_of m probe)
    → Elem id (values_of (list_under rks id m) probe)
unfolding list_under
list_under-kept [] id probe m h = h
list_under-kept (rk ∷ rks) id probe m h =
    list_under-kept rks id probe (insert_value (hash_bytes rk) id m)
      (Elem-insert_value-kept (hash_bytes rk) id id probe m h)

Elem-list_under :
    (rks : List Hash) (rk : Hash) (id : Bytes) (m : HashMap Bytes (List Bytes))
    → Elem rk rks
    → Elem id (values_of (list_under rks id m) (hash_bytes rk))
unfolding list_under
Elem-list_under [] rk id m h = elim h [ ]
Elem-list_under (k ∷ rks) rk id m (inl same) =
    subst (λ i. Elem id (values_of (list_under (k ∷ rks) id m) (hash_bytes i))) same
      (list_under-kept rks id (hash_bytes k) (insert_value (hash_bytes k) id m)
        (Elem-insert_value (hash_bytes k) id m))
Elem-list_under (k ∷ rks) rk id m (inr h) =
    Elem-list_under rks rk id (insert_value (hash_bytes k) id m) h

module _ (x : External) (codec : DescriptorCodec) where
  Elem-read_ids :
      (table : HashMap Bytes Bytes) (now : ℕ) (ids : List Bytes) (id cbor : Bytes) (d : Descriptor)
      → Elem id ids
      → lookup id table ≡ some cbor
      → codec.decode cbor ≡ some d
      → is_alive x codec now d ≡ true
      → Elem d (read_ids x codec table none now ids)
  unfolding read_ids matches
  Elem-read_ids table now [] id cbor d h found read alive = elim h [ ]
  Elem-read_ids table now (j ∷ ids) id cbor d (inl same) found read alive =
      let here : lookup j table ≡ some cbor =
        subst (λ i. lookup i table ≡ some cbor) (sym same) found in
      rw (read_ids, here, read, alive) (inl refl)
  Elem-read_ids table now (j ∷ ids) id cbor d (inr h) found read alive =
      let below = Elem-read_ids table now ids id cbor d h found read alive in
      elim (Option-cases (lookup j table)) [
        | inl missing ↦ rw (read_ids, missing) below
        | inr (b, there) ↦ elim (Option-cases (codec.decode b)) [
          | inl unread ↦ rw (read_ids, there, unread) below
          | inr (other, reads) ↦ elim (Bool-cases (is_alive x codec now other)) [
            | inl lives ↦ rw (read_ids, there, reads, lives) (inr below)
            | inr dead ↦ rw (read_ids, there, reads, dead) below
          ]
        ]
      ]

  write_version-read :
      (s : RedbStorage) (d : Descriptor) (cbor : Bytes) (rk : Hash) (now : ℕ)
      → codec.decode cbor ≡ some d
      → is_alive x codec now d ≡ true
      → Elem rk d.routing_keys
      → Elem d (get_descriptors_at x codec (write_version x codec s d cbor) rk none now)
  unfolding write_version get_descriptors_at
  write_version-read s d cbor rk now read alive h =
      let old = remove_version x codec s (lookup (dedup_key x codec d) s.dedup_index) in
      Elem-read_ids (insert (hash_bytes d.id) cbor old.descriptors) now _ (hash_bytes d.id) cbor d
        (Elem-list_under d.routing_keys rk (hash_bytes d.id) old.by_routing_key h)
        (lookup-insert_self (hash_bytes d.id) cbor old.descriptors) read alive

  -- What validate accepts is alive.
  validate-is_alive :
      (d : Descriptor) (now : ℕ) → validate x d now ≡ ok tt → is_alive x codec now d ≡ true
  unfolding validate
  validate-is_alive d now h = ground arith

  -- A transaction that succeeds has written.
  transact-writes :
      (s : RedbStorage) (d : Descriptor) (fault : Option Text)
      → (transact x codec s d fault).0 ≡ ok tt
      → (cbor : Bytes) × (codec.encode d ≡ some cbor)
        × ((transact x codec s d fault).1 ≡ write_version x codec s d cbor)
  unfolding transact
  transact-writes s d fault h = elim (Option-cases (codec.encode d)) [
    | inl bad ↦ absurd (ground arith)
    | inr (cbor, encoded) ↦ elim (Option-cases fault) [
      | inr (e, failed) ↦ absurd (ground arith)
      | inl clean ↦
          elim (Bool-cases (is_stale d.sequence (lookup (dedup_key x codec d) s.sequences))) [
            | inl stale ↦ absurd (ground arith)
            | inr current ↦ (cbor, encoded, rw (transact, encoded, clean, current) refl)
          ]
    ]
  ]

  abbrev Outcome : Type 0
  Outcome = Result RedbError (Unit {0}) × RedbStorage

  -- A STORE that succeeds is a transaction that does.
  store_descriptor_at-transacts :
      (s : RedbStorage) (d : Descriptor) (now : ℕ) (fault : Option Text)
      → (store_descriptor_at x codec s d now fault).0 ≡ ok tt
      → (base : RedbStorage) × (store_descriptor_at x codec s d now fault
          ≡ transact x codec base d fault)
        × (validate x d now ≡ ok tt)
  unfolding store_descriptor_at
  store_descriptor_at-transacts s d now fault h =
      let (allowed, rates) = check_rate_limit s.rate_timestamps (identity_bytes d.publisher) now in
      elim (Result-cases (validate x d now)) [
        | inr (e, bad) ↦ absurd (ground arith)
        | inl (_, good) ↦ elim (Bool-cases s.skip_rate_limit) [
          | inl skipped ↦ (s, simp (store_descriptor_at, good, skipped) refl, good)
          | inr limited ↦ elim (Bool-cases allowed) [
            | inl free ↦ (
              record s { rate_timestamps = rates; skip_rate_limit = false },
              simp (store_descriptor_at, good, limited, free) refl,
              good,
            )
            | inr full ↦ absurd (ground arith)
          ]
        ]
      ]

  -- What a STORE on disk accepts is read back at the same time under each routing key that it
  -- lists, if its CBOR form, when it has one, is read back as it was.
  pub store_descriptor_at-read :
      (s : RedbStorage) (d : Descriptor) (now : ℕ) (fault : Option Text) (rk : Hash)
      → ((cbor : Bytes) → codec.encode d ≡ some cbor → codec.decode cbor ≡ some d)
      → (store_descriptor_at x codec s d now fault).0 ≡ ok tt
      → Elem rk d.routing_keys
      → Elem d
          (get_descriptors_at x codec (store_descriptor_at x codec s d now fault).1 rk none now)
  store_descriptor_at-read s d now fault rk faithful h listed =
      let (base, same, good) = store_descriptor_at-transacts s d now fault h in
      let (cbor, encoded, written) =
        transact-writes base d fault (sym (ap (λ (r : Outcome). r.0) same) ∙ h) in
      subst (λ t. Elem d (get_descriptors_at x codec t rk none now))
        (sym (ap (λ (r : Outcome). r.1) same ∙ written))
        (write_version-read base d cbor rk now (faithful cbor encoded)
          (validate-is_alive d now good) listed)
