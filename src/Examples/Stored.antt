-- ===== src/Examples/Stored.antt =====
-- Examples on the descriptor store of mesh-dht.
use mars_protocol.Common.{
  ℕ, ◌+◌, ◌≤◌, ◌≡◌, ◌≢◌, ◌↔◌, refl, false, none, List, [], ◌∷◌, length, retain, Elem, arith, Text,
  codes, ok, list_beq, eq_iff, ◌==◌, list_eq, nat_eq,
}
use mars_protocol.Core.Hash.{
  Hash, hash_eq, hash_beq, blake3, schema_hash, schema_hash_core_revocation,
  schema_hash_core_key_rotation,
}
use mars_protocol.Core.Identity.{Identity, identity, identity_eq}
use mars_protocol.Core.Descriptor.{Descriptor, create, validate}
use mars_protocol.Dht.Storage.Limiter.{in_window, rate_limit_per_minute}
use mars_protocol.Dht.Storage.{
  DescriptorStore, new, dedup_key_eq, store_descriptor_at, get_descriptors_at, evict_expired_at,
}
use mars_protocol.Dht.Storage.Rate.{run, run-le-limit}
use mars_protocol.Dht.Storage.Invariant.{IsValid, new-IsValid, store_descriptor_at-IsValid}
use mars_protocol.Dht.Storage.Serve.{IsServed, stored, get_descriptors_at_iff}
use mars_protocol.Dht.Storage.Evict.{get_descriptors_at-evict_expired_at}
use mars_protocol.Dht.Storage.Write.{IsPlain}
use mars_protocol.Dht.Storage.Later.{Later}
use mars_protocol.Dht.Storage.Runs.{Reaches, start, next, store_step, Reaches-Later}
use mars_protocol.Examples.Primitives.{sample, alice, bob, key_a, noon, made}

abbrev pub topic : Text
topic = codes "t"

-- a descriptor of alice
abbrev pub note : Descriptor
note = made alice key_a topic (4 ∷ 5 ∷ [])

note_differs : (h : Hash) → (note.schema_hash == h) ≡ false → note.schema_hash ≢ h
note_differs h e same = absurd (cc ((eq_iff note.schema_hash h).1 same, e))

pub note-IsPlain : IsPlain sample note
unfolding create schema_hash_core_revocation schema_hash_core_key_rotation schema_hash blake3
    hash_beq list_beq
note-IsPlain = record { no_revocation = note_differs _ refl; no_rotation = note_differs _ refl }

-- the store behind that STORE
abbrev pub one_note : DescriptorStore
one_note = (store_descriptor_at sample new note noon).1

store_descriptor_at-IsValid_example : IsValid sample (store_descriptor_at sample new note noon).1
store_descriptor_at-IsValid_example =
    store_descriptor_at-IsValid sample new note noon (new-IsValid sample)

pub one_note-IsValid : IsValid sample one_note
one_note-IsValid = store_descriptor_at-IsValid sample new note noon (new-IsValid sample)

get_descriptors_at_iff_example :
    (Elem note (get_descriptors_at one_note key_a none noon) ↔ (
      Elem note (stored sample one_note one_note-IsValid key_a)
      × IsServed one_note.revoked none noon note))
    × (Elem note (get_descriptors_at one_note key_a none noon)
        → Elem key_a note.routing_keys × ((t : ℕ) × (validate sample note t ≡ ok tt)))
get_descriptors_at_iff_example =
    get_descriptors_at_iff sample one_note one_note-IsValid key_a none noon note (omega arith)

get_descriptors_at-evict_expired_at_example :
    get_descriptors_at (evict_expired_at one_note noon) key_a none (noon + 5)
    ≡ get_descriptors_at one_note key_a none (noon + 5)
get_descriptors_at-evict_expired_at_example =
    get_descriptors_at-evict_expired_at sample one_note one_note-IsValid noon (omega arith) key_a
      none (noon + 5) (omega arith) (omega arith)

abbrev calls : List (Identity × ℕ)
calls =
    (identity sample alice, noon)
    ∷ (identity sample bob, noon)
    ∷ (identity sample alice, noon + 7)
    ∷ []

run-le-limit_example :
    length (retain (in_window (noon + 9)) (run (identity sample alice) calls [] []))
    ≤ rate_limit_per_minute
run-le-limit_example =
    run-le-limit (identity sample alice) calls (noon + 9)
      (omega arith, (omega arith, (omega arith, tt))) (omega arith)

pub one_note-Reaches : Reaches sample new one_note
one_note-Reaches = next start (store_step note noon)

Reaches-Later_example : Later new one_note
Reaches-Later_example = Reaches-Later sample new one_note one_note-Reaches
