-- ===== src/Dht/Storage/Parse.antt =====
-- The payloads of revocations and key rotations in mesh-dht/src/storage.rs, and the store's errors.
use mars_protocol.Common.{
  ℕ, ◌^◌, Bool, false, Option, none, some, [], ◌∷◌, if◌then◌else◌, ltb, list_eq, nat_eq, ◌==◌,
  Result, ok, err, ◌>>=◌, Text, Bytes, codes,
}
use mars_protocol.Core.External.{External, Value, Entries, integer, bytes, text, table, end, entry}
use mars_protocol.Core.Error.{MeshError}
use mars_protocol.Core.Hash.{Hash}
use mars_protocol.Core.Identity.{Identity}

-- the messages that `ValidationFailed` is given
pub data ValidationFailure : Type 0 where
  descriptor_invalid : MeshError → ValidationFailure
  invalid_payload : ValidationFailure
  missing_target_id : ValidationFailure
  target_id_too_short : ValidationFailure
  payload_not_map : ValidationFailure
  missing_old_identity : ValidationFailure
  missing_new_identity : ValidationFailure
  missing_rotation_seq : ValidationFailure
  new_identity_too_short : ValidationFailure
  storage_failed : Option Text → ValidationFailure

pub data StoreError : Type 0 where
  validation_failed : ValidationFailure → StoreError
  stale_descriptor : ℕ → ℕ → StoreError
  rate_limited : ℕ → StoreError
  revocation_publisher_mismatch : StoreError
  stale_rotation : ℕ → ℕ → StoreError
  rotation_fork_detected : StoreError

-- the accessors of `ciborium::Value` that the parsing calls
abbrev pub is_text : Text → Value → Bool
is_text name (text t) = t == name
is_text name _ = false

abbrev pub as_map : Value → Option Entries
as_map (table es) = some es
as_map _ = none

abbrev pub as_bytes : Value → Option Bytes
as_bytes (bytes b) = some b
as_bytes _ = none

-- `as_integer` and `u64::try_from`
abbrev pub as_u64 : Value → Option ℕ
as_u64 (integer n) = if ltb n (2 ^ 64) then some n else none
as_u64 _ = none

-- `m.iter().find_map(..)`: the first entry under the name whose value has the right kind
unfoldable pub find_map : {A : Type 0} → Text → (Value → Option A) → Entries → Option A
find_map name read end = none
find_map name read (entry k v es) =
    let later = find_map name read es in
    if is_text name k then (elim (read v) [ some a ↦ some a | none ↦ later ]) else later

-- `ok_or_else`
abbrev pub ok_or : {A : Type 0} → Option A → ValidationFailure → Result ValidationFailure A
ok_or (some a) e = ok a
ok_or none e = err e

-- the algorithm byte and the bytes behind it: at least two bytes
abbrev pub split_tag : Bytes → ValidationFailure → Result ValidationFailure (ℕ × Bytes)
split_tag (a ∷ b ∷ bs) e = ok (a, b ∷ bs)
split_tag (a ∷ []) e = err e
split_tag [] e = err e

pub record Rotation : Type 0 where
  pub old_identity : Bytes
  pub new_identity : Identity
  pub rotation_seq : ℕ

module _ (x : External) where
  -- `target_id` of a revocation's payload
  unfoldable pub revocation_target : Bytes → Result ValidationFailure Hash
  unfolding find_map
  revocation_target payload = do
    value ← ok_or (x.read_cbor payload) invalid_payload
    target_id_bytes ←
        ok_or
          (elim (as_map value) [ none ↦ none | some es ↦ find_map (codes "target_id") as_bytes es ])
          missing_target_id
    (algorithm, digest) ← split_tag target_id_bytes target_id_too_short
    ok (record { algorithm = algorithm; digest = digest })

  -- the three fields of a rotation's payload
  unfoldable pub rotation_fields : Bytes → Result ValidationFailure Rotation
  unfolding find_map
  rotation_fields payload = do
    value ← ok_or (x.read_cbor payload) invalid_payload
    map ← ok_or (as_map value) payload_not_map
    old_identity ← ok_or (find_map (codes "old_identity") as_bytes map) missing_old_identity
    new_identity_bytes ← ok_or (find_map (codes "new_identity") as_bytes map) missing_new_identity
    rotation_seq ← ok_or (find_map (codes "rotation_seq") as_u64 map) missing_rotation_seq
    (algorithm, public_key) ← split_tag new_identity_bytes new_identity_too_short
    ok (record {
      old_identity = old_identity;
      new_identity = record { algorithm = algorithm; public_key = public_key };
      rotation_seq = rotation_seq;
    })
