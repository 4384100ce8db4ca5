-- ===== src/Core/External.antt =====
-- What the crates blake3, bs58, hex, ed25519-dalek and ciborium provide. Their code is not part of
-- the repository, so it enters as a parameter: a record of functions, and a record for each law that
-- a theorem relies on. The data type is the part of `ciborium::Value` that the source builds or reads.
use mars_protocol.Common.{ℕ, ◌≡◌, Bool, true, Option, Bytes, Text, length, All, IsByte}

mutual
  pub data Value : Type 0 where
    -- an integer that is not negative
    integer : ℕ → Value
    -- the integer -(n + 1)
    negative : ℕ → Value
    bytes : Bytes → Value
    text : Text → Value
    array : Values → Value
    table : Entries → Value
    -- floats, booleans, null and tagged values, which the source never looks into
    opaque_value : Value

  pub data Values : Type 0 where
    nil : Values
    cons : Value → Values → Values

  pub data Entries : Type 0 where
    end : Entries
    entry : Value → Value → Entries → Entries

pub record External : Type 0 where
  -- `blake3::hash(data).as_bytes()`
  pub blake3 : Bytes → Bytes
  -- `bs58::encode(bytes).into_string()`
  pub base58 : Bytes → Text
  -- `hex::encode(bytes)`
  pub hex : Bytes → Text
  -- `VerifyingKey::from_bytes` accepts the 32 bytes
  pub is_verifying_key : Bytes → Bool
  -- `VerifyingKey::verify` of a key, a message and a signature of 64 bytes
  pub ed25519_verify : Bytes → Bytes → Bytes → Bool
  -- `SigningKey::verifying_key` and `SigningKey::sign`, from the secret bytes
  pub ed25519_public : Bytes → Bytes
  pub ed25519_sign : Bytes → Bytes → Bytes
  -- `ciborium::into_writer` of a value
  pub write_cbor : Value → Bytes
  -- `ciborium::from_reader`; `none` is a decoding error
  pub read_cbor : Bytes → Option Value

-- A BLAKE3 digest has 32 bytes.
pub record HashLaws (x : External) : Type 0 where
  pub length-blake3 : (d : Bytes) → length (x.blake3 d) ≡ 32
  pub blake3-IsByte : (d : Bytes) → All IsByte (x.blake3 d)

-- A key pair of Ed25519: 32 bytes of public key, 64 bytes of signature, which the key verifies.
pub record SignatureLaws (x : External) : Type 0 where
  pub length-ed25519_public : (s : Bytes) → length (x.ed25519_public s) ≡ 32
  pub is_verifying_key-ed25519_public : (s : Bytes) → x.is_verifying_key (x.ed25519_public s) ≡ true
  pub length-ed25519_sign : (s m : Bytes) → length (x.ed25519_sign s m) ≡ 64
  pub ed25519_verify-sign :
      (s m : Bytes) → x.ed25519_verify (x.ed25519_public s) m (x.ed25519_sign s m) ≡ true
