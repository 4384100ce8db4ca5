-- ===== src/Dht/Storage.antt =====
-- mesh-dht/src/storage.rs: the descriptors that a node holds, by routing key, with one version per
-- publisher, schema and topic, a rate limit per publisher, revocations and key rotations. A method
-- returns its result beside the new state; what was written before an error stays written.
pub mod Limiter
pub mod Parse
pub mod Rate
pub mod Shrinks
pub mod Cases
pub mod Invariant
pub mod Serve
pub mod Evict
pub mod Write
pub mod Search
pub mod Revocation
pub mod Later
pub mod Runs
pub mod Rotations
use mars_protocol.Common.{
  ℕ, ◌+◌, ◌*◌, min, Bool, true, false, not, ◌&&◌, ◌||◌, Option, none, some, List, [], ◌∷◌, ◌++◌,
  length, is_empty, retain, any, find, if◌then◌else◌, ltb, leb, Eq, nat_eq, list_eq, ◌==◌, eq_iff,
  ◌≡◌, ◌↔◌, arith, HashMap, lookup, insert, unwrap_or, map_values, retain_values, Result, ok, err,
  Text, Bytes,
}
use mars_protocol.Core.External.{External}
use mars_protocol.Core.Hash.{
  Hash, hash_eq, schema_hash_core_revocation, schema_hash_core_key_rotation,
}
use mars_protocol.Core.Identity.{Identity, identity_eq}
use mars_protocol.Core.Descriptor.{Descriptor, effective_end, validate}
use mars_protocol.Core.Message.{FilterSet}
use Limiter.{RateLimiter, check_and_record, rate_limit_per_minute}
use Parse.{
  StoreError, ValidationFailure, descriptor_invalid, validation_failed, stale_descriptor,
  rate_limited, revocation_publisher_mismatch, stale_rotation, rotation_fork_detected, Rotation,
  revocation_target, rotation_fields,
}

pub record DedupKey : Type 0 where
  pub publisher : Identity
  pub schema_hash : Hash
  pub topic : Text

unfoldable pub dedup_key_beq : DedupKey → DedupKey → Bool
dedup_key_beq a b =
    a.publisher == b.publisher && a.schema_hash == b.schema_hash && a.topic == b.topic

pub dedup_key_beq_iff : (a b : DedupKey) → (dedup_key_beq a b ≡ true) ↔ (a ≡ b)
unfolding dedup_key_beq
dedup_key_beq_iff a b = ground (
  arith,
  eq_iff a.publisher b.publisher,
  eq_iff a.schema_hash b.schema_hash,
  eq_iff a.topic b.topic,
)

instance abbrev pub dedup_key_eq : Eq DedupKey
dedup_key_eq = record { beq = dedup_key_beq; beq_iff = dedup_key_beq_iff }

-- `DedupKey::from_descriptor`
abbrev pub dedup_key : Descriptor → DedupKey
dedup_key d = record { publisher = d.publisher; schema_hash = d.schema_hash; topic = d.topic }

abbrev pub Index : Type 0
Index = HashMap Hash (List Descriptor)

pub record DescriptorStore : Type 0 where
  pub store : Index
  pub sequences : HashMap DedupKey ℕ
  pub rate_limiter : RateLimiter
  pub revoked : List Hash
  pub rotations : HashMap Bytes (Identity × ℕ)

-- `DescriptorStore::new`
unfoldable pub new : DescriptorStore
new = record { store = []; sequences = []; rate_limiter = []; revoked = []; rotations = [] }

-- `for descriptors in self.store.values_mut() { descriptors.retain(keep) }`
unfoldable pub retain_all : (Descriptor → Bool) → Index → Index
retain_all keep store = map_values (retain keep) store

-- `self.store.retain(|_, v| !v.is_empty())`
unfoldable pub drop_empty : Index → Index
drop_empty store = retain_values (λ v. not (is_empty v)) store

-- the loop over the routing keys: `entry(key).or_default().push(descriptor)`
unfoldable pub push_under : List Hash → Descriptor → Index → Index
push_under [] d store = store
push_under (key ∷ keys) d store =
    push_under keys d (insert key (unwrap_or (lookup key store) [] ++ d ∷ []) store)

-- `self.store.values().flat_map(..)`
unfoldable pub all_stored : Index → List Descriptor
all_stored [] = []
all_stored ((key, ds) ∷ store) = ds ++ all_stored store

-- `HashSet::insert`
unfoldable pub set_insert : Hash → List Hash → List Hash
set_insert h hs = if any (λ k. k == h) hs then hs else h ∷ hs

-- The part of `process_revocation` behind the parsing.
unfoldable pub revoke :
    DescriptorStore → Descriptor → Hash → Result StoreError (Unit {0}) × DescriptorStore
unfolding all_stored retain_all drop_empty set_insert
revoke s revocation target_id = elim (find (λ d. d.id == target_id) (all_stored s.store)) [
  | none ↦ (ok tt, record s { revoked = set_insert target_id s.revoked })
  | some target ↦
      if not (revocation.publisher == target.publisher)
      then (
        err revocation_publisher_mismatch,
        record s { store = retain_all (λ d. not (d.id == revocation.id)) s.store },
      )
      else (
        ok tt,
        record s {
          store = drop_empty (retain_all (λ d. not (d.id == target_id)) s.store);
          revoked = set_insert target_id (set_insert target_id s.revoked);
        },
      )
]

-- The part of `process_key_rotation` behind the parsing.
unfoldable pub rotate :
    DescriptorStore → Descriptor → Rotation → Result StoreError (Unit {0}) × DescriptorStore
unfolding retain_all
rotate s rotation r =
    let without = record s { store = retain_all (λ d. not (d.id == rotation.id)) s.store } in
    let recorded = record s {
      rotations = insert r.old_identity (r.new_identity, r.rotation_seq) s.rotations;
    } in
    elim (lookup r.old_identity s.rotations) [
      | none ↦ (ok tt, recorded)
      | some (existing_identity, existing_seq) ↦
          if r.rotation_seq == existing_seq && not (existing_identity == r.new_identity)
          then (err rotation_fork_detected, without)
          else if ltb r.rotation_seq existing_seq
          then (err (stale_rotation r.rotation_seq existing_seq), without)
          else (ok tt, recorded)
    ]

-- `?` on a step that keeps the state in both cases
abbrev pub and_then :
    Result StoreError (Unit {0}) × DescriptorStore
    → (DescriptorStore → Result StoreError (Unit {0}) × DescriptorStore)
    → Result StoreError (Unit {0}) × DescriptorStore
and_then (ok _, s) f = f s
and_then (err e, s) f = (err e, s)

module _ (x : External) where
  unfoldable pub process_revocation :
      DescriptorStore → Descriptor → Result StoreError (Unit {0}) × DescriptorStore
  process_revocation s revocation = elim (revocation_target x revocation.payload) [
    | ok target_id ↦ revoke s revocation target_id
    | err e ↦ (err (validation_failed e), s)
  ]

  unfoldable pub process_key_rotation :
      DescriptorStore → Descriptor → Result StoreError (Unit {0}) × DescriptorStore
  process_key_rotation s rotation = elim (rotation_fields x rotation.payload) [
    | ok r ↦ rotate s rotation r
    | err e ↦ (err (validation_failed e), s)
  ]

  -- what `store_descriptor_at` writes once the checks have passed
  abbrev pub accept : DescriptorStore → Descriptor → DescriptorStore
  accept s d = record s {
    sequences = insert (dedup_key d) d.sequence s.sequences;
    store =
        push_under d.routing_keys d (retain_all (λ e. not (dedup_key e == dedup_key d)) s.store);
  }

  -- the two special schemas, behind the write
  unfoldable pub process :
      DescriptorStore → Descriptor → Result StoreError (Unit {0}) × DescriptorStore
  process s d =
      and_then
        (if d.schema_hash == schema_hash_core_revocation x
          then process_revocation s d
          else (ok tt, s))
        (λ s'.
          if d.schema_hash == schema_hash_core_key_rotation x
          then process_key_rotation s' d
          else (ok tt, s'))

  -- the check of the sequence, and what follows it
  unfoldable pub store_checked :
      DescriptorStore → Descriptor → Result StoreError (Unit {0}) × DescriptorStore
  store_checked s d = elim (lookup (dedup_key d) s.sequences) [
    | none ↦ process (accept s d) d
    | some current ↦
        if ltb d.sequence current
        then (err (stale_descriptor d.sequence current), s)
        else process (accept s d) d
  ]

  unfoldable pub store_descriptor_at :
      DescriptorStore → Descriptor → ℕ → Result StoreError (Unit {0}) × DescriptorStore
  store_descriptor_at s d now_micros = elim (validate x d now_micros) [
    | err e ↦ (err (validation_failed (descriptor_invalid e)), s)
    | ok _ ↦
        let (allowed, limiter) = check_and_record s.rate_limiter d.publisher now_micros in
        let s' = record s { rate_limiter = limiter } in
        if allowed then store_checked s' d else (err (rate_limited rate_limit_per_minute), s')
  ]

-- the closure of `get_descriptors_at`
abbrev pub is_none_or : {A : Type 0} → (A → Bool) → Option A → Bool
is_none_or test none = true
is_none_or test (some a) = test a

unfoldable pub matches : Option FilterSet → Descriptor → Bool
matches none d = true
matches (some f) d =
    is_none_or (λ sh. d.schema_hash == sh) f.schema_hash
    && is_none_or (λ min_ts. not (ltb d.timestamp min_ts)) f.min_timestamp
    && is_none_or (λ pub_id. d.publisher == pub_id) f.publisher

unfoldable pub is_served : List Hash → Option FilterSet → ℕ → Descriptor → Bool
unfolding matches
is_served revoked filters now_micros d =
    not (any (λ h. h == d.id) revoked)
    && not (leb (effective_end d now_micros) now_micros)
    && matches filters d

unfoldable pub get_descriptors_at : DescriptorStore → Hash → Option FilterSet → ℕ → List Descriptor
unfolding is_served
get_descriptors_at s routing_key filters now_micros = elim (lookup routing_key s.store) [
  | none ↦ []
  | some ds ↦ retain (is_served s.revoked filters now_micros) ds
]

unfoldable pub evict_expired_at : DescriptorStore → ℕ → DescriptorStore
unfolding retain_all drop_empty
evict_expired_at s now_micros = record s {
  store = drop_empty (retain_all (λ d. ltb now_micros (effective_end d now_micros)) s.store);
}

unfoldable pub has_descriptors : DescriptorStore → Hash → Bool
has_descriptors s routing_key = elim (lookup routing_key s.store) [
  | none ↦ false
  | some ds ↦ not (is_empty ds)
]

unfoldable pub descriptor_count : DescriptorStore → ℕ
unfolding all_stored
descriptor_count s = length (all_stored s.store)

unfoldable pub routing_key_count : DescriptorStore → ℕ
routing_key_count s = length s.store
