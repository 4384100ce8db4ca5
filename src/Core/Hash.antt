-- ===== src/Core/Hash.antt =====
-- mesh-core/src/hash.rs and mesh-core/src/schema.rs: a digest beside the tag of its algorithm.
use mars_protocol.Common.{
  ℕ, ◌≡◌, ◌↔◌, Bool, true, ◌&&◌, ◌++◌, arith, Bytes, Text, codes, Eq, nat_eq, list_eq, ◌==◌, eq_iff,
}
use mars_protocol.Core.External.{External}

abbrev pub alg_blake3 : ℕ
alg_blake3 = 0x03

abbrev pub alg_sha256 : ℕ
alg_sha256 = 0x04

pub record Hash : Type 0 where
  pub algorithm : ℕ
  pub digest : Bytes

unfoldable pub hash_beq : Hash → Hash → Bool
hash_beq a b = a.algorithm == b.algorithm && a.digest == b.digest

pub hash_beq_iff : (a b : Hash) → (hash_beq a b ≡ true) ↔ (a ≡ b)
unfolding hash_beq
hash_beq_iff a b = ground (arith, eq_iff a.algorithm b.algorithm, eq_iff a.digest b.digest)

instance abbrev pub hash_eq : Eq Hash
hash_eq = record { beq = hash_beq; beq_iff = hash_beq_iff }

unfoldable pub is_blake3 : Hash → Bool
is_blake3 h = h.algorithm == alg_blake3

module _ (x : External) where
  unfoldable pub blake3 : Bytes → Hash
  blake3 input = record { algorithm = alg_blake3; digest = x.blake3 input }

  unfoldable pub to_hex : Hash → Text
  to_hex h = x.hex h.digest

  -- `BLAKE3("mesh:schema:<name>")`
  unfoldable pub schema_hash : Text → Hash
  unfolding blake3
  schema_hash name = blake3 (codes "mesh:schema:" ++ name)

  -- the two schemas that the store treats apart
  unfoldable pub schema_hash_core_revocation : Hash
  schema_hash_core_revocation = schema_hash (codes "core/revocation")

  unfoldable pub schema_hash_core_key_rotation : Hash
  schema_hash_core_key_rotation = schema_hash (codes "core/key-rotation")
