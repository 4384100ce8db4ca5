-- ===== src/Dht/Storage/Rotations.antt =====
-- Key rotations in mesh-dht/src/storage.rs: the first, a newer one, a fork and a stale one.
use mars_protocol.Common.{ℕ, ◌<◌, ◌≡◌, ◌≢◌, some, lookup, Result, ok, err, nat_eq, list_eq}
use mars_protocol.Core.External.{External}
use mars_protocol.Core.Hash.{hash_eq, schema_hash_core_revocation, schema_hash_core_key_rotation}
use mars_protocol.Core.Identity.{Identity, identity_eq}
use mars_protocol.Core.Descriptor.{Descriptor}
use mars_protocol.Dht.Storage.Parse.{
  StoreError, Rotation, rotation_fields, rotation_fork_detected, stale_rotation,
}
use mars_protocol.Dht.Storage.Shrinks.{AllStored}
use mars_protocol.Dht.Storage.Cases.{recorded}
use mars_protocol.Dht.Storage.Later.{Succeeds}
use mars_protocol.Dht.Storage.{DescriptorStore}

module _ (x : External) where
  -- a rotation with these fields
  pub record Rotates (d : Descriptor) (r : Rotation) : Type 0 where
    pub schema : d.schema_hash ≡ schema_hash_core_key_rotation x
    pub only : d.schema_hash ≢ schema_hash_core_revocation x
    pub fields : rotation_fields x d.payload ≡ ok r

  -- what is recorded of the rotated identity, and the refusal of a rotation
  abbrev pub Known : DescriptorStore → Rotation → Identity × ℕ → Type 0
  Known s r old = lookup r.old_identity s.rotations ≡ some old

  abbrev pub Refused :
      DescriptorStore
      → Descriptor
      → Result StoreError (Unit {0}) × DescriptorStore
      → StoreError
      → Type 0
  Refused s d (result, s') e =
      (result ≡ err e) × (s'.rotations ≡ s.rotations) × AllStored (λ key f. f.id ≢ d.id) s'.store

  pub record IsRotationAnswer (s t : DescriptorStore) (d : Descriptor) (r : Rotation)
      (a : Result StoreError (Unit {0}) × DescriptorStore) : Type 0 where
    pub recorded :
        ((old : Identity × ℕ) → Known s r old → Succeeds old (r.new_identity, r.rotation_seq))
        → (a.0 ≡ ok tt)
          × (lookup r.old_identity a.1.rotations ≡ some (r.new_identity, r.rotation_seq))
          × (a.1.store ≡ t.store)
    pub forked :
        (i : Identity)
        → Known s r (i, r.rotation_seq)
        → i ≢ r.new_identity
        → Refused s d a rotation_fork_detected
    pub outdated :
        (i : Identity) (n : ℕ)
        → Known s r (i, n)
        → r.rotation_seq < n
        → Refused s d a (stale_rotation r.rotation_seq n)
