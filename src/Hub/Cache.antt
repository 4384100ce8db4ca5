-- ===== src/Hub/Cache.antt =====
-- mesh-hub/src/storage/mod.rs: a cache of descriptor lists by routing key over any storage. The cache
-- is moka's: it may drop an entry at any time, and otherwise gives back what was put in.
pub mod Reads
use mars_protocol.Common.{
  ℕ, Bool, is_empty, not, Option, none, some, List, [], ◌∷◌, retain, ◌==◌, nat_eq, list_eq, HashMap,
  lookup, insert, map, Result, ok, err, Bytes,
}
use mars_protocol.Core.Hash.{Hash}
use mars_protocol.Core.Descriptor.{Descriptor}
use mars_protocol.Core.Message.{FilterSet}
use mars_protocol.Dht.Storage.{matches}
use mars_protocol.Dht.Storage.Parse.{StoreError}
use mars_protocol.Dht.Node.Interface.{DescriptorStorage}
use mars_protocol.Hub.Redb.{hash_bytes, remove_key}

pub record CachedStorage (S : Type 0) : Type 0 where
  pub inner : S
  pub cache : HashMap Bytes (List Descriptor)

-- `CachedStorage::new`
unfoldable pub new : {S : Type 0} → S → CachedStorage S
new inner = record { inner = inner; cache = [] }

-- the loop over the keys of a stored descriptor
unfoldable pub invalidate :
    List Bytes → HashMap Bytes (List Descriptor) → HashMap Bytes (List Descriptor)
unfolding remove_key
invalidate [] cache = cache
invalidate (rk ∷ rks) cache = invalidate rks (remove_key rk cache)

module _ {S : Type 0} (storage : DescriptorStorage S) where
  unfoldable pub store_descriptor_at :
      CachedStorage S → Descriptor → ℕ → Result StoreError (Unit {0}) × CachedStorage S
  unfolding invalidate
  store_descriptor_at c d now_micros =
      let (r, inner) = storage.store_descriptor_at c.inner d now_micros in
      elim r [
        | err e ↦ (err e, record c { inner = inner })
        | ok _ ↦ (
          ok tt,
          record { inner = inner; cache = invalidate (map hash_bytes d.routing_keys) c.cache },
        )
      ]

  -- by its own reading of the clock
  unfoldable pub store_descriptor :
      CachedStorage S → Descriptor → ℕ → Result StoreError (Unit {0}) × CachedStorage S
  unfolding invalidate
  store_descriptor c d now =
      let (r, inner) = storage.store_descriptor c.inner d now in
      elim r [
        | err e ↦ (err e, record c { inner = inner })
        | ok _ ↦ (
          ok tt,
          record { inner = inner; cache = invalidate (map hash_bytes d.routing_keys) c.cache },
        )
      ]

  -- the unfiltered list under a key, from the cache or loaded into it
  unfoldable pub load : CachedStorage S → Hash → ℕ → List Descriptor × CachedStorage S
  unfolding hash_bytes
  load c routing_key now = elim (lookup (hash_bytes routing_key) c.cache) [
    | some cached ↦ (cached, c)
    | none ↦
        let (loaded, inner) = storage.get_descriptors c.inner routing_key none now in
        (loaded, record { inner = inner; cache = insert (hash_bytes routing_key) loaded c.cache })
  ]

  -- filters are applied behind the cache; `now` is read by the storage when it loads
  unfoldable pub get_descriptors :
      CachedStorage S → Hash → Option FilterSet → ℕ → List Descriptor × CachedStorage S
  unfolding load
  get_descriptors c routing_key filters now =
      let (all, c1) = load c routing_key now in (retain (matches filters) all, c1)

  -- past the cache
  unfoldable pub get_descriptors_at :
      CachedStorage S → Hash → Option FilterSet → ℕ → List Descriptor
  get_descriptors_at c routing_key filters now_micros =
      storage.get_descriptors_at c.inner routing_key filters now_micros

  unfoldable pub evict_expired : CachedStorage S → ℕ → CachedStorage S
  evict_expired c now = record { inner = storage.evict_expired c.inner now; cache = [] }

  unfoldable pub evict_expired_at : CachedStorage S → ℕ → CachedStorage S
  evict_expired_at c now_micros = record {
    inner = storage.evict_expired_at c.inner now_micros;
    cache = [];
  }

  -- from the cached list if there is one
  unfoldable pub has_descriptors : CachedStorage S → Hash → Bool
  unfolding hash_bytes
  has_descriptors c routing_key = elim (lookup (hash_bytes routing_key) c.cache) [
    | some cached ↦ not (is_empty cached)
    | none ↦ storage.has_descriptors c.inner routing_key
  ]

  unfoldable pub descriptor_count : CachedStorage S → ℕ
  descriptor_count c = storage.descriptor_count c.inner

  unfoldable pub routing_key_count : CachedStorage S → ℕ
  routing_key_count c = storage.routing_key_count c.inner

  -- the cache as a backend
  abbrev pub cached_storage : DescriptorStorage (CachedStorage S)
  cached_storage = record {
    store_descriptor = store_descriptor;
    store_descriptor_at = store_descriptor_at;
    get_descriptors = get_descriptors;
    get_descriptors_at = get_descriptors_at;
    evict_expired = evict_expired;
    evict_expired_at = evict_expired_at;
    has_descriptors = has_descriptors;
    descriptor_count = descriptor_count;
    routing_key_count = routing_key_count;
  }
