-- ===== src/Core/Identity.antt =====
-- mesh-core/src/identity.rs: public identities, key pairs, DIDs and node ids.
use mars_protocol.Common.{
  ℕ, ◌≡◌, ◌↔◌, ◌∷◌, Bool, true, ◌&&◌, ◌++◌, arith, Bytes, Text, codes, Eq, nat_eq, list_eq, ◌==◌,
  eq_iff, length, ok, err, if◌then◌else◌,
}
use mars_protocol.Core.External.{External}
use mars_protocol.Core.Error.{Result, invalid_signature, unknown_algorithm}
use mars_protocol.Core.Hash.{Hash, blake3}

abbrev pub alg_ed25519 : ℕ
alg_ed25519 = 0x01

pub record Identity : Type 0 where
  pub algorithm : ℕ
  pub public_key : Bytes

unfoldable pub identity_beq : Identity → Identity → Bool
identity_beq a b = a.algorithm == b.algorithm && a.public_key == b.public_key

pub identity_beq_iff : (a b : Identity) → (identity_beq a b ≡ true) ↔ (a ≡ b)
unfolding identity_beq
identity_beq_iff a b =
    ground (arith, eq_iff a.algorithm b.algorithm, eq_iff a.public_key b.public_key)

instance abbrev pub identity_eq : Eq Identity
identity_eq = record { beq = identity_beq; beq_iff = identity_beq_iff }

pub record Keypair : Type 0 where
  pub signing_key : Bytes

module _ (x : External) where
  -- `did:mesh:z` and base58btc of the algorithm byte and the key
  unfoldable pub did : Identity → Text
  did i = codes "did:mesh:z" ++ x.base58 (i.algorithm ∷ i.public_key)

  unfoldable pub verify : Identity → Bytes → Bytes → Result (Unit {0})
  verify i message signature =
      if i.algorithm == alg_ed25519
      then if length i.public_key == 32 && x.is_verifying_key i.public_key
        then if length signature == 64 && x.ed25519_verify i.public_key message signature
          then ok tt
          else err invalid_signature
        else err invalid_signature
      else err (unknown_algorithm i.algorithm)

  -- the position of a node in the key space
  unfoldable pub node_id : Identity → Hash
  unfolding blake3
  node_id i = blake3 x i.public_key

  unfoldable pub identity : Keypair → Identity
  identity kp = record { algorithm = alg_ed25519; public_key = x.ed25519_public kp.signing_key }

  unfoldable pub sign : Keypair → Bytes → Bytes
  sign kp message = x.ed25519_sign kp.signing_key message
