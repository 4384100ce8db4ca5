-- ===== src/Examples/Primitives.antt =====
-- Small functions in place of the cryptography and of CBOR, with the laws that the theorems ask for,
-- and a descriptor made with them.
use mars_protocol.Common.{
  ℕ, zero, suc, ◌≤◌, ◌%◌, ◌≡◌, refl, true, Option, none, some, [], ◌∷◌, ◌++◌, length, All, IsByte,
  ap, arith, Bytes, Text, codes, ◌==◌, nat_eq, list_eq, eq_iff, ok,
}
use mars_protocol.Core.External.{
  External, HashLaws, SignatureLaws, Value, Values, Entries, integer, negative, bytes, text, array,
  table, opaque_value, nil, cons, end, entry,
}
use mars_protocol.Core.Hash.{Hash}
use mars_protocol.Core.Identity.{Keypair}
use mars_protocol.Core.Descriptor.{Descriptor, create, validate}
use mars_protocol.Core.Descriptor.Validity.{validate-create}

-- the first n bytes, with zeros behind a short text
abbrev pub pad : ℕ → Bytes → Bytes
pad zero bs = []
pad (suc n) [] = 0 ∷ pad n []
pad (suc n) (b ∷ bs) = b % 256 ∷ pad n bs

length-pad : (n : ℕ) (bs : Bytes) → length (pad n bs) ≡ n
length-pad zero bs = refl
length-pad (suc n) [] = ap suc (length-pad n [])
length-pad (suc n) (b ∷ bs) = ap suc (length-pad n bs)

pad-IsByte : (n : ℕ) (bs : Bytes) → All IsByte (pad n bs)
pad-IsByte zero bs = tt
pad-IsByte (suc n) [] = (omega arith, pad-IsByte n [])
pad-IsByte (suc n) (b ∷ bs) = (omega arith, pad-IsByte n bs)

unfoldable mutual
  pub write_value : Value → Bytes
  write_value (integer n) = n ∷ []
  write_value (negative n) = n ∷ []
  write_value (bytes b) = b
  write_value (text t) = t
  write_value (array vs) = write_values vs
  write_value (table es) = write_entries es
  write_value opaque_value = []

  pub write_values : Values → Bytes
  write_values nil = []
  write_values (cons v vs) = write_value v ++ write_values vs

  pub write_entries : Entries → Bytes
  write_entries end = []
  write_entries (entry k v es) = write_value k ++ write_value v ++ write_entries es

-- A payload is read as the id of a revocation's target and as both identities of a rotation; an empty
-- one is not readable.
abbrev pub read_fields : Bytes → Option Value
read_fields [] = none
read_fields (b ∷ bs) = some (
    table (
      entry (text (codes "target_id")) (bytes (b ∷ bs)) (
        entry (text (codes "old_identity")) (bytes (b ∷ bs)) (
          entry (text (codes "new_identity")) (bytes (b ∷ bs))
            (entry (text (codes "rotation_seq")) (integer 4) end)))))

abbrev pub sample : External
sample = record {
  blake3 = pad 32;
  base58 = λ b. b;
  hex = λ b. b;
  is_verifying_key = λ b. true;
  ed25519_verify = λ key message signature. signature == pad 64 message;
  ed25519_public = pad 32;
  ed25519_sign = λ secret message. pad 64 message;
  write_cbor = write_value;
  read_cbor = read_fields;
}

pub sample-HashLaws : HashLaws sample
sample-HashLaws = record { length-blake3 = length-pad 32; blake3-IsByte = pad-IsByte 32 }

pub sample-SignatureLaws : SignatureLaws sample
sample-SignatureLaws = record {
  length-ed25519_public = length-pad 32;
  is_verifying_key-ed25519_public = λ s. refl;
  length-ed25519_sign = λ s m. length-pad 64 m;
  ed25519_verify-sign = λ s m. (eq_iff (pad 64 m) (pad 64 m)).1 refl;
}

abbrev pub alice : Keypair
alice = record { signing_key = 1 ∷ 2 ∷ [] }

abbrev pub bob : Keypair
bob = record { signing_key = 7 ∷ [] }

abbrev pub key_a : Hash
key_a = record { algorithm = 3; digest = pad 32 (codes "compute") }

-- a time in 2023, in microseconds
abbrev pub noon : ℕ
noon = 1700000000000000

abbrev pub made : Keypair → Hash → Text → Bytes → Descriptor
made kp schema topic payload = create sample kp schema topic payload noon 1 3600 (key_a ∷ [])

-- What is made with a short payload and topic is valid at noon.
pub made-valid :
    (kp : Keypair) (schema : Hash) (topic : Text) (payload : Bytes)
    → length payload ≤ 65536
    → length topic ≤ 255
    → validate sample (made kp schema topic payload) noon ≡ ok tt
made-valid kp schema topic payload p t =
    validate-create sample sample-SignatureLaws kp schema topic payload noon 1 3600 (key_a ∷ [])
      noon (omega arith) (omega arith) (omega arith) (omega arith) (omega arith) (omega arith)
      (omega arith) p t
