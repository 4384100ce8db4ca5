-- ===== src/Hub/Redb.antt =====
-- mesh-hub/src/storage/redb.rs: the descriptors of a hub on disk, in four tables of the database redb.
-- A write transaction takes effect as a whole or, after a database error, not at all; the error that
-- it meets, if any, is an argument. A read finds its tables. A multimap lists the values of a key in
-- the order of their insertion, where redb sorts them.
pub mod Keys
pub mod Slots
pub mod RoundTrip
pub mod Replay
use mars_protocol.Common.{
  ℕ, ◌+◌, Bool, true, false, not, ◌&&◌, Option, none, some, List, [], ◌∷◌, ◌++◌, length, is_empty,
  any, retain, if◌then◌else◌, ltb, leb, ◌==◌, nat_eq, list_eq, HashMap, lookup, insert, unwrap_or,
  saturating_sub, Result, ok, err, Text, Bytes, Eq,
}
use mars_protocol.Core.External.{External}
use mars_protocol.Core.Error.{MeshError}
use mars_protocol.Core.Hash.{Hash}
use mars_protocol.Core.Descriptor.{Descriptor, validate, effective_end}
use mars_protocol.Core.Message.{FilterSet}
use mars_protocol.Dht.Storage.{matches}
use mars_protocol.Hub.RateLimit.{identity_bytes}

abbrev pub rate_limit_per_minute : ℕ
rate_limit_per_minute = 10

abbrev pub rate_limit_window_micros : ℕ
rate_limit_window_micros = 60000000

pub record RedbStorage : Type 0 where
  pub descriptors : HashMap Bytes Bytes
  pub by_routing_key : HashMap Bytes (List Bytes)
  pub dedup_index : HashMap Bytes Bytes
  pub sequences : HashMap Bytes ℕ
  pub rate_timestamps : HashMap Bytes (List ℕ)
  pub skip_rate_limit : Bool

-- `to_cbor` and `from_cbor` on descriptors
pub record DescriptorCodec : Type 0 where
  pub encode : Descriptor → Option Bytes
  pub decode : Bytes → Option Descriptor

-- the errors, with the values that their texts show
pub data RedbError : Type 0 where
  validation_failed : MeshError → RedbError
  rate_limited : ℕ → RedbError
  stale_descriptor : ℕ → ℕ → RedbError
  unencodable : RedbError
  database_failed : Text → RedbError

unfoldable pub hash_bytes : Hash → Bytes
hash_bytes h = h.algorithm ∷ h.digest

-- `remove` on a table
unfoldable pub remove_key : {K V : Type 0} ⦃e : Eq K⦄ → K → HashMap K V → HashMap K V
remove_key k m = retain (λ e. not (e.0 == k)) m

-- `insert` on the multimap: a value stands under a key once
unfoldable pub insert_value :
    Bytes → Bytes → HashMap Bytes (List Bytes) → HashMap Bytes (List Bytes)
insert_value k v m =
    let values = unwrap_or (lookup k m) [] in
    insert k (if any (λ u. u == v) values then values else values ++ v ∷ []) m

-- `remove` on the multimap
unfoldable pub remove_value :
    Bytes → Bytes → HashMap Bytes (List Bytes) → HashMap Bytes (List Bytes)
remove_value k v m = insert k (retain (λ u. not (u == v)) (unwrap_or (lookup k m) [])) m

-- the loops over the routing keys of a descriptor
unfoldable pub list_under :
    List Hash → Bytes → HashMap Bytes (List Bytes) → HashMap Bytes (List Bytes)
unfolding insert_value
list_under [] id m = m
list_under (rk ∷ rks) id m = list_under rks id (insert_value (hash_bytes rk) id m)

unfoldable pub unlist_under :
    List Hash → Bytes → HashMap Bytes (List Bytes) → HashMap Bytes (List Bytes)
unfolding remove_value
unlist_under [] id m = m
unlist_under (rk ∷ rks) id m = unlist_under rks id (remove_value (hash_bytes rk) id m)

-- the publisher's window, and whether one more STORE fits
unfoldable pub check_rate_limit : HashMap Bytes (List ℕ) → Bytes → ℕ → Bool × HashMap Bytes (List ℕ)
check_rate_limit timestamps key now_micros =
    let entries =
      retain (λ ts. ltb (saturating_sub now_micros ts) rate_limit_window_micros)
        (unwrap_or (lookup key timestamps) []) in
    if leb rate_limit_per_minute (length entries)
    then (false, insert key entries timestamps)
    else (true, insert key (entries ++ now_micros ∷ []) timestamps)

-- whether a newer sequence of the slot is known
abbrev pub is_stale : ℕ → Option ℕ → Bool
is_stale sequence none = false
is_stale sequence (some current) = ltb sequence current

module _ (x : External) (codec : DescriptorCodec) where
  -- publisher, schema and topic
  unfoldable pub dedup_key : Descriptor → Bytes
  unfolding hash_bytes
  dedup_key d = x.blake3 (identity_bytes d.publisher ++ hash_bytes d.schema_hash ++ d.topic)

  -- the routing keys of a stored version, none if it cannot be read
  unfoldable pub stored_keys : HashMap Bytes Bytes → Bytes → List Hash
  stored_keys table id = elim (lookup id table) [
    | none ↦ []
    | some cbor ↦ elim (codec.decode cbor) [ none ↦ [] | some d ↦ d.routing_keys ]
  ]

  -- the old version of a slot goes out of both tables
  unfoldable pub remove_version : RedbStorage → Option Bytes → RedbStorage
  unfolding remove_key unlist_under stored_keys
  remove_version s none = s
  remove_version s (some old_id) = record s {
    descriptors = remove_key old_id s.descriptors;
    by_routing_key = unlist_under (stored_keys s.descriptors old_id) old_id s.by_routing_key;
  }

  -- the writes of a transaction that passed the checks
  unfoldable pub write_version : RedbStorage → Descriptor → Bytes → RedbStorage
  unfolding dedup_key remove_version list_under hash_bytes
  write_version s d cbor =
      let key = dedup_key d in
      let id = hash_bytes d.id in
      let old_removed = remove_version s (lookup key s.dedup_index) in
      record old_removed {
        descriptors = insert id cbor old_removed.descriptors;
        by_routing_key = list_under d.routing_keys id old_removed.by_routing_key;
        dedup_index = insert key id old_removed.dedup_index;
        sequences = insert key d.sequence old_removed.sequences;
      }

  -- the transaction
  unfoldable pub transact :
      RedbStorage → Descriptor → Option Text → Result RedbError (Unit {0}) × RedbStorage
  unfolding write_version
  transact s d fault = elim (codec.encode d) [
    | none ↦ (err unencodable, s)
    | some cbor ↦ elim fault [
      | some e ↦ (err (database_failed e), s)
      | none ↦
          let current = lookup (dedup_key d) s.sequences in
          if is_stale d.sequence current
          then (err (stale_descriptor d.sequence (unwrap_or current 0)), s)
          else (ok tt, write_version s d cbor)
    ]
  ]

  unfoldable pub store_descriptor_at :
      RedbStorage → Descriptor → ℕ → Option Text → Result RedbError (Unit {0}) × RedbStorage
  unfolding check_rate_limit transact
  store_descriptor_at s d now_micros fault = elim (validate x d now_micros) [
    | err e ↦ (err (validation_failed e), s)
    | ok _ ↦
        let (allowed, timestamps) =
          check_rate_limit s.rate_timestamps (identity_bytes d.publisher) now_micros in
        if s.skip_rate_limit
        then transact s d fault
        else if allowed
        then transact (record s { rate_timestamps = timestamps }) d fault
        else (err (rate_limited rate_limit_per_minute), record s { rate_timestamps = timestamps })
  ]

  abbrev pub is_alive : ℕ → Descriptor → Bool
  is_alive now_micros d = not (leb (effective_end d now_micros) now_micros)

  -- the descriptors under some ids that are alive and pass the filters
  unfoldable pub read_ids :
      HashMap Bytes Bytes → Option FilterSet → ℕ → List Bytes → List Descriptor
  read_ids table filters now_micros [] = []
  read_ids table filters now_micros (id ∷ ids) =
      let rest = read_ids table filters now_micros ids in
      elim (lookup id table) [
        | none ↦ rest
        | some cbor ↦ elim (codec.decode cbor) [
          | none ↦ rest
          | some d ↦ if is_alive now_micros d && matches filters d then d ∷ rest else rest
        ]
      ]

  unfoldable pub get_descriptors_at : RedbStorage → Hash → Option FilterSet → ℕ → List Descriptor
  unfolding read_ids hash_bytes
  get_descriptors_at s routing_key filters now_micros =
      read_ids s.descriptors filters now_micros
        (unwrap_or (lookup (hash_bytes routing_key) s.by_routing_key) [])

  -- the readable descriptors that a test keeps
  unfoldable pub read_where : (Descriptor → Bool) → HashMap Bytes Bytes → List Descriptor
  read_where keep [] = []
  read_where keep ((id, cbor) ∷ table) =
      let rest = read_where keep table in
      elim (codec.decode cbor) [ none ↦ rest | some d ↦ if keep d then d ∷ rest else rest ]

  -- out of all four tables, the sequence included
  unfoldable pub forget : RedbStorage → Descriptor → RedbStorage
  unfolding remove_key unlist_under dedup_key hash_bytes
  forget s d = record s {
    descriptors = remove_key (hash_bytes d.id) s.descriptors;
    by_routing_key = unlist_under d.routing_keys (hash_bytes d.id) s.by_routing_key;
    dedup_index = remove_key (dedup_key d) s.dedup_index;
    sequences = remove_key (dedup_key d) s.sequences;
  }

  unfoldable pub forget_all : RedbStorage → List Descriptor → RedbStorage
  unfolding forget
  forget_all s [] = s
  forget_all s (d ∷ ds) = forget_all (forget s d) ds

  unfoldable pub evict_expired_at : RedbStorage → ℕ → RedbStorage
  unfolding forget_all read_where
  evict_expired_at s now_micros =
      forget_all s (read_where (λ d. not (is_alive now_micros d)) s.descriptors)

  unfoldable pub all_descriptors : RedbStorage → ℕ → List Descriptor
  unfolding read_where
  all_descriptors s now = read_where (is_alive now) s.descriptors

unfoldable pub has_descriptors : RedbStorage → Hash → Bool
has_descriptors s routing_key =
    not (is_empty (unwrap_or (lookup (hash_bytes routing_key) s.by_routing_key) []))

unfoldable pub descriptor_count : RedbStorage → ℕ
descriptor_count s = length s.descriptors

-- the pairs of the multimap
unfoldable pub count_values : HashMap Bytes (List Bytes) → ℕ
count_values [] = 0
count_values ((k, values) ∷ m) = length values + count_values m

unfoldable pub routing_key_count : RedbStorage → ℕ
unfolding count_values
routing_key_count s = count_values s.by_routing_key
