-- ===== src/Dht/Node/Interface.antt =====
-- The two interfaces of mesh-dht that a node is written against: `DescriptorStorage` of
-- mesh-dht/src/storage.rs and `ProtocolHook` of mesh-dht/src/hooks.rs. A backend brings its laws; those
-- of the in-memory store are filled by the theorems on it.
use mars_protocol.Common.{ℕ, Bool, Option, List, Result, ok, Text}
use mars_protocol.Core.External.{External}
use mars_protocol.Core.Hash.{Hash}
use mars_protocol.Core.Descriptor.{Descriptor}
use mars_protocol.Core.Message.{FilterSet}
use mars_protocol.Dht.Storage.Parse.{StoreError}
use mars_protocol.Dht.Storage.{
  DescriptorStore, store_descriptor_at, get_descriptors_at, evict_expired_at, has_descriptors,
  descriptor_count, routing_key_count,
}
use mars_protocol.Dht.Storage.Invariant.{
  IsValid, store_descriptor_at-IsValid, evict_expired_at-IsValid,
}

-- A method that depends on the time stands in two forms: with an explicit time, or with the reading of the
-- clock that it makes. `get_descriptors` may change what a backend keeps inside, as a cache does.
pub record DescriptorStorage (S : Type 0) : Type 0 where
  pub store_descriptor : S → Descriptor → ℕ → Result StoreError (Unit {0}) × S
  pub store_descriptor_at : S → Descriptor → ℕ → Result StoreError (Unit {0}) × S
  pub get_descriptors : S → Hash → Option FilterSet → ℕ → List Descriptor × S
  pub get_descriptors_at : S → Hash → Option FilterSet → ℕ → List Descriptor
  pub evict_expired : S → ℕ → S
  pub evict_expired_at : S → ℕ → S
  pub has_descriptors : S → Hash → Bool
  pub descriptor_count : S → ℕ
  pub routing_key_count : S → ℕ

-- `ProtocolHook`: what it decides. `post_store` and `post_query` return nothing.
pub record ProtocolHook : Type 0 where
  pub pre_store : Descriptor → Result Text (Unit {0})
  pub pre_query : Hash → Result Text (Unit {0})

-- `NoOpHook`
abbrev pub no_op_hook : ProtocolHook
no_op_hook = record { pre_store = λ d. ok tt; pre_query = λ k. ok tt }

-- what a node relies on to stay valid
pub record StorageLaws (x : External) {S : Type 0} (storage : DescriptorStorage S)
    (Valid : S → Type 0) : Type 0 where
  pub store-Valid :
      (s : S) (d : Descriptor) (now : ℕ) → Valid s → Valid (storage.store_descriptor s d now).1
  pub evict-Valid : (s : S) (now : ℕ) → Valid s → Valid (storage.evict_expired s now)
  pub get-Valid :
      (s : S) (key : Hash) (filters : Option FilterSet) (now : ℕ)
      → Valid s
      → Valid (storage.get_descriptors s key filters now).1

-- the backend `DescriptorStore`
abbrev pub memory_storage : External → DescriptorStorage DescriptorStore
memory_storage x = record {
  store_descriptor = store_descriptor_at x;
  store_descriptor_at = store_descriptor_at x;
  get_descriptors = λ s key filters now. (get_descriptors_at s key filters now, s);
  get_descriptors_at = get_descriptors_at;
  evict_expired = evict_expired_at;
  evict_expired_at = evict_expired_at;
  has_descriptors = has_descriptors;
  descriptor_count = descriptor_count;
  routing_key_count = routing_key_count;
}

pub memory_storage-StorageLaws : (x : External) → StorageLaws x (memory_storage x) (IsValid x)
memory_storage-StorageLaws x = record {
  store-Valid = store_descriptor_at-IsValid x;
  evict-Valid = evict_expired_at-IsValid x;
  get-Valid = λ s key filters now v. v;
}
