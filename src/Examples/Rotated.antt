-- ===== src/Examples/Rotated.antt =====
-- An example on key rotations in the descriptor store of mesh-dht.
use mars_protocol.Common.{[], ◌∷◌, codes, list_eq, nat_eq}
use mars_protocol.Core.Hash.{hash_eq, schema_hash_core_key_rotation}
use mars_protocol.Core.Identity.{identity_eq}
use mars_protocol.Core.Descriptor.{Descriptor}
use mars_protocol.Dht.Storage.{dedup_key_eq}
use mars_protocol.Examples.Primitives.{sample, alice, made}
use mars_protocol.Dht.Storage.Parse.{Rotation}

abbrev rotation : Descriptor
rotation = made alice (schema_hash_core_key_rotation sample) (codes "k") (1 ∷ 7 ∷ [])

abbrev rotated : Rotation
rotated = record {
  old_identity = 1 ∷ 7 ∷ [];
  new_identity = record { algorithm = 1; public_key = 7 ∷ [] };
  rotation_seq = 4;
}
