-- ===== src/Hub/Seeding.antt =====
-- mesh-hub/src/seeding.rs: a hub's own descriptors, stored past the rate limit. The payload is JSON that
-- serde_json writes, a parameter; each call of the storage has its reading of the clock and its fault.
pub mod Counts
use mars_protocol.Common.{
  ℕ, ◌+◌, Bool, true, false, Option, none, some, List, [], ◌∷◌, Result, ok, err, map_err, Text,
  Bytes, codes,
}
use mars_protocol.Core.External.{External}
use mars_protocol.Core.Hash.{schema_hash}
use mars_protocol.Core.Identity.{Keypair}
use mars_protocol.Core.Descriptor.{Descriptor, create}
use mars_protocol.Core.RoutingKey.{hierarchical_routing_keys}
use mars_protocol.Dht.Storage.Parse.{
  StoreError, ValidationFailure, descriptor_invalid, storage_failed,
}
use mars_protocol.Dht.Storage.Parse
use mars_protocol.Dht.Node.Interface.{DescriptorStorage}
use mars_protocol.Hub.Redb
use mars_protocol.Hub.Redb.{RedbStorage, RedbError, DescriptorCodec}
use mars_protocol.Hub.Cache
use mars_protocol.Hub.Cache.{CachedStorage}

-- an entry of the seed file, its parameters in some form
pub record SeedEntry (P : Type 0) : Type 0 where
  pub kind : Text
  pub endpoint : Text
  pub params : Option P

-- the errors of the disk as those of the interface; `db_err` shows its error in a text
abbrev pub to_store_error : RedbError → StoreError
to_store_error (Redb.validation_failed e) = Parse.validation_failed (descriptor_invalid e)
to_store_error (Redb.rate_limited limit) = Parse.rate_limited limit
to_store_error (Redb.stale_descriptor received current) = Parse.stale_descriptor received current
to_store_error Redb.unencodable = Parse.validation_failed (storage_failed none)
to_store_error (Redb.database_failed e) = Parse.validation_failed (storage_failed (some e))

module _ (x : External) (codec : DescriptorCodec) where
  -- the store on disk as a backend, in a moment with this fault of the database
  abbrev pub redb_storage : Option Text → DescriptorStorage RedbStorage
  redb_storage fault = record {
    store_descriptor = λ s d now.
        let (r, after) = Redb.store_descriptor_at x codec s d now fault in
        (map_err to_store_error r, after);
    store_descriptor_at = λ s d now.
        let (r, after) = Redb.store_descriptor_at x codec s d now fault in
        (map_err to_store_error r, after);
    get_descriptors = λ s key filters now. (Redb.get_descriptors_at x codec s key filters now, s);
    get_descriptors_at = Redb.get_descriptors_at x codec;
    evict_expired = Redb.evict_expired_at x codec;
    evict_expired_at = Redb.evict_expired_at x codec;
    has_descriptors = Redb.has_descriptors;
    descriptor_count = Redb.descriptor_count;
    routing_key_count = Redb.routing_key_count;
  }

  module _ {P : Type 0} (to_payload : SeedEntry P → Bytes) (keypair : Keypair) where
    -- sequence 1 and an hour to live
    unfoldable pub seed_descriptor : SeedEntry P → ℕ → Descriptor
    unfolding create schema_hash hierarchical_routing_keys
    seed_descriptor entry now =
        create x keypair (schema_hash x (codes "core/capability")) entry.kind (to_payload entry) now
          1 3600 (hierarchical_routing_keys x entry.kind)

    -- the loop, with the counts so far
    unfoldable pub seed_all :
        CachedStorage RedbStorage
        → List (SeedEntry P × ℕ × Option Text)
        → ℕ
        → ℕ
        → ℕ
        → (ℕ × ℕ) × CachedStorage RedbStorage
    unfolding seed_descriptor Cache.store_descriptor Redb.store_descriptor_at
    seed_all c [] now stored failed = ((stored, failed), c)
    seed_all c ((entry, clock, fault) ∷ entries) now stored failed =
        let (r, after) =
          Cache.store_descriptor (redb_storage fault) c (seed_descriptor entry now) clock in
        elim r [
          | ok _ ↦ seed_all after entries now (stored + 1) failed
          | err e ↦ seed_all after entries now stored (failed + 1)
        ]

    abbrev pub set_skip : Bool → CachedStorage RedbStorage → CachedStorage RedbStorage
    set_skip skip c = record c { inner = record c.inner { skip_rate_limit = skip } }

    unfoldable pub seed_now :
        CachedStorage RedbStorage
        → List (SeedEntry P × ℕ × Option Text)
        → ℕ
        → (ℕ × ℕ) × CachedStorage RedbStorage
    unfolding seed_all
    seed_now c entries now =
        let (counts, after) = seed_all (set_skip true c) entries now 0 0 in
        (counts, set_skip false after)
