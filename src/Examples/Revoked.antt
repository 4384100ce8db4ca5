-- ===== src/Examples/Revoked.antt =====
-- Examples on revocations in the descriptor store of mesh-dht.
use mars_protocol.Common.{
  ℕ, ◌≤◌, ◌≡◌, ◌≢◌, refl, false, none, some, [], ◌∷◌, length, All, Elem, inl, arith, Bytes, Text,
  codes, ok, err, lookup, list_beq, eq_iff, ap, ◌==◌, list_eq, nat_eq,
}
use mars_protocol.Core.Hash.{
  Hash, hash_eq, hash_beq, blake3, schema_hash, schema_hash_core_revocation,
  schema_hash_core_key_rotation,
}
use mars_protocol.Core.Identity.{Keypair, identity, identity_eq, identity_beq}
use mars_protocol.Core.Descriptor.{
  Descriptor, create, compute_id, canonical_value, tagged_value, hash_values,
}
use mars_protocol.Dht.Storage.Limiter.{check_and_record}
use mars_protocol.Dht.Storage.Parse.{
  revocation_target, find_map, validation_failed, invalid_payload, revocation_publisher_mismatch,
}
use mars_protocol.Dht.Storage.{
  DescriptorStore, new, dedup_key, dedup_key_eq, store_descriptor_at, get_descriptors_at,
}
use mars_protocol.Dht.Storage.Shrinks.{AllStored}
use mars_protocol.Dht.Storage.Cases.{IsFresh}
use mars_protocol.Dht.Storage.Invariant.{IsValid, new-IsValid, store_descriptor_at-IsValid}
use mars_protocol.Dht.Storage.Write.{under}
use mars_protocol.Dht.Storage.Revocation.{
  Revokes, IsRevoked, IsRefused, store_descriptor_at-own_revocation,
  store_descriptor_at-foreign_revocation, store_descriptor_at-unreadable_revocation,
}
use mars_protocol.Dht.Storage.Runs.{start, next, store_step, revoked_never_served}
use mars_protocol.Examples.Primitives.{
  sample, alice, bob, key_a, noon, made, made-valid, write_value,
}
use mars_protocol.Examples.Stored.{note}

abbrev topic : Text
topic = codes "r"

-- a revocation by one of the two publishers
abbrev revocation : Keypair → Bytes → Descriptor
revocation kp target = made kp (schema_hash_core_revocation sample) topic target

abbrev target : Hash
target = record { algorithm = 3; digest = 9 ∷ [] }

revocation-differs : (schema_hash_core_revocation sample) ≢ (schema_hash_core_key_rotation sample)
unfolding schema_hash_core_revocation schema_hash_core_key_rotation schema_hash blake3 hash_beq
    list_beq
revocation-differs e =
    let apart : (schema_hash_core_revocation sample == schema_hash_core_key_rotation sample)
        ≡ false =
      refl in
    absurd (
      cc (
        (eq_iff (schema_hash_core_revocation sample) (schema_hash_core_key_rotation sample)).1 e,
        apart,
      ))

revocation-Revokes :
    (kp : Keypair) (a b : ℕ) (bs : Bytes)
    → Revokes sample (revocation kp (a ∷ b ∷ bs)) (record { algorithm = a; digest = b ∷ bs })
unfolding create revocation_target find_map list_beq
revocation-Revokes kp a b bs = record { schema = refl; only = revocation-differs; names = refl }

-- with no rate recorded and no sequence known, what was made is fresh
revocation-IsFresh :
    (s : DescriptorStore) (kp : Keypair) (payload : Bytes)
    → length payload ≤ 65536
    → s.rate_limiter ≡ []
    → s.sequences ≡ []
    → IsFresh sample s (revocation kp payload) noon
unfolding check_and_record lookup
revocation-IsFresh s kp payload short quiet untracked = record {
  valid = made-valid kp _ topic payload short (omega arith);
  within_rate = rw quiet refl;
  newest = λ c e. absurd (cc (e, ap (lookup (dedup_key (revocation kp payload))) untracked));
}

new_quiet : new.rate_limiter ≡ []
unfolding new
new_quiet = refl

new_untracked : new.sequences ≡ []
unfolding new
new_untracked = refl

new_empty :
    AllStored
      (λ key e. e.id ≡ target → e.publisher ≡ (revocation alice (3 ∷ 9 ∷ [])).publisher)
      new.store
unfolding new
new_empty = tt

store_descriptor_at-own_revocation_example :
    ((store_descriptor_at sample new (revocation alice (3 ∷ 9 ∷ [])) noon).0 ≡ ok tt)
    × IsRevoked sample
        (store_descriptor_at sample new (revocation alice (3 ∷ 9 ∷ [])) noon).1
        target
store_descriptor_at-own_revocation_example =
    store_descriptor_at-own_revocation sample new (revocation alice (3 ∷ 9 ∷ [])) target noon
      (revocation-Revokes alice 3 9 [])
      (revocation-IsFresh new alice (3 ∷ 9 ∷ []) (omega arith) new_quiet new_untracked) new_empty

-- a store that holds a note of alice
abbrev held : DescriptorStore
held = record {
  store = (key_a, note ∷ []) ∷ [];
  sequences = [];
  rate_limiter = [];
  revoked = [];
  rotations = [];
}

abbrev foreign : Descriptor
foreign = revocation bob (3 ∷ note.id.digest)

note-under : Elem note (under held.store key_a)
unfolding lookup hash_beq list_beq
note-under = inl refl

foreign-held : AllStored (λ key g. g.id ≡ note.id → g.publisher ≢ foreign.publisher) held.store
unfolding create identity_beq identity list_beq
foreign-held =
    let apart : (note.publisher == foreign.publisher) ≡ false = refl in
    (((λ i e. absurd (cc ((eq_iff note.publisher foreign.publisher).1 e, apart))), tt), tt)

foreign_apart : foreign.id ≢ note.id
unfolding create compute_id blake3 canonical_value tagged_value hash_values write_value hash_beq
    list_beq
foreign_apart e =
    let apart : (foreign.id == note.id) ≡ false = refl in
    absurd (cc ((eq_iff foreign.id note.id).1 e, apart))

foreign-Revokes : Revokes sample foreign note.id
unfolding create compute_id blake3 canonical_value tagged_value hash_values write_value
    revocation_target find_map list_beq
foreign-Revokes = record { schema = refl; only = revocation-differs; names = refl }

foreign_size : length (3 ∷ note.id.digest) ≡ 33
unfolding create compute_id blake3 canonical_value tagged_value hash_values write_value
foreign_size = refl

foreign-IsFresh : IsFresh sample held foreign noon
foreign-IsFresh =
    revocation-IsFresh held bob (3 ∷ note.id.digest) (omega (arith, foreign_size)) refl refl

store_descriptor_at-foreign_revocation_example :
    ((store_descriptor_at sample held foreign noon).0 ≡ err revocation_publisher_mismatch)
    × IsRefused sample held (store_descriptor_at sample held foreign noon).1 foreign
store_descriptor_at-foreign_revocation_example =
    store_descriptor_at-foreign_revocation sample held foreign note.id noon foreign-Revokes
      foreign-IsFresh note key_a note-under refl foreign-held foreign_apart

store_descriptor_at-unreadable_revocation_example :
    ((store_descriptor_at sample new (revocation alice []) noon).0
      ≡ err (validation_failed invalid_payload))
    × ((key : Hash)
        → Elem key (revocation alice []).routing_keys
        → Elem
            (revocation alice [])
            (under (store_descriptor_at sample new (revocation alice []) noon).1.store key))
    × (lookup
          (dedup_key (revocation alice []))
          (store_descriptor_at sample new (revocation alice []) noon).1.sequences
        ≡ some (revocation alice []).sequence)
unfolding create revocation_target
store_descriptor_at-unreadable_revocation_example =
    store_descriptor_at-unreadable_revocation sample new (revocation alice []) noon invalid_payload
      refl refl (revocation-IsFresh new alice [] (omega arith) new_quiet new_untracked)

-- the store behind the revocation of an unknown target
abbrev revoking : DescriptorStore
revoking = (store_descriptor_at sample new (revocation alice (3 ∷ 9 ∷ [])) noon).1

revoking-IsValid : IsValid sample revoking
revoking-IsValid =
    store_descriptor_at-IsValid sample new (revocation alice (3 ∷ 9 ∷ [])) noon (new-IsValid sample)

target-revoked : Elem target revoking.revoked
target-revoked =
    (store_descriptor_at-own_revocation sample new (revocation alice (3 ∷ 9 ∷ [])) target noon
      (revocation-Revokes alice 3 9 [])
      (revocation-IsFresh new alice (3 ∷ 9 ∷ []) (omega arith) new_quiet new_untracked)
      new_empty).1.recorded

revoked_never_served_example :
    All
      (λ d. d.id ≢ target)
      (get_descriptors_at (store_descriptor_at sample revoking note noon).1 key_a none noon)
revoked_never_served_example =
    revoked_never_served sample revoking (store_descriptor_at sample revoking note noon).1 target
      key_a none noon revoking-IsValid target-revoked (next start (store_step note noon))
