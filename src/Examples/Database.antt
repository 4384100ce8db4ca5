-- ===== src/Examples/Database.antt =====
-- Examples on the storage, the cache, the accounts and the hook of mesh-hub.
use mars_protocol.Common.{
  subst, ◌+◌, ◌≡◌, ◌≢◌, ◌↔◌, inl, refl, false, none, some, [], ◌∷◌, retain, Elem, arith, Text,
  Bytes, codes, ok, err, lookup, list_beq, list_eq, nat_eq, ap,
}
use mathlib.Core.Option.{some-injective}
use mars_protocol.Core.Hash.{Hash, blake3}
use mars_protocol.Core.Descriptor.{Descriptor, create, effective_end, compute_id, canonical_value}
use mars_protocol.Core.Descriptor.Validity.{validate-create}
use mars_protocol.Dht.Storage.{DescriptorStore, new, matches}
use mars_protocol.Dht.Storage.Limiter.{check_and_record}
use mars_protocol.Dht.Storage.Invariant.{new-IsValid}
use mars_protocol.Dht.Storage.Write.{store_descriptor_at_iff}
use mars_protocol.Hub.Redb
use mars_protocol.Hub.Redb.{RedbStorage, DescriptorCodec, hash_bytes, dedup_key, get_descriptors_at}
use mars_protocol.Hub.Redb.RoundTrip.{store_descriptor_at-read}
use mars_protocol.Hub.Redb.Slots.{store_descriptor_at-other}
use mars_protocol.Hub.Redb.Replay.{evict_expired_at-replay}
use mars_protocol.Hub.Cache
use mars_protocol.Hub.Cache.{CachedStorage, get_descriptors}
use mars_protocol.Hub.Cache.Reads.{get_descriptors-store, get_descriptors-repeat}
use mars_protocol.Hub.Auth.{DidAuthChallenge}
use mars_protocol.Hub.Policy.{pos, default_policy}
use mars_protocol.Hub.Policy.Decisions.{IsAllowed}
use mars_protocol.Hub.RateLimit
use mars_protocol.Hub.RateLimit.{check_identity}
use mars_protocol.Hub.Tenants.{
  get_tenant, TenantManager, empty_tables, create_tenant, create_challenge, deduct_mu,
  get_challenge, consume_challenge, already_consumed,
}
use mars_protocol.Hub.Tenants.Charges.{HasRoom, IsDeduction, deduct_mu-IsDeduction}
use mars_protocol.Hub.Tenants.Challenges.{consume_challenge-once}
use mars_protocol.Hub.Hooks.{HubProtocolHook, pre_store, is_tenant, pre_store_iff}
use mars_protocol.Examples.Primitives.{
  write_value, sample, sample-SignatureLaws, alice, key_a, noon, made, made-valid,
}
use mars_protocol.Examples.Stored.{note, topic, note-IsPlain}
use mars_protocol.Examples.Nodes.{storage}

-- a descriptor is written as its payload, and read back as one of alice
abbrev codec : DescriptorCodec
codec = record { encode = λ d. some d.payload; decode = λ b. some (made alice key_a topic b) }

abbrev empty_disk : RedbStorage
empty_disk = record {
  descriptors = [];
  by_routing_key = [];
  dedup_index = [];
  sequences = [];
  rate_timestamps = [];
  skip_rate_limit = false;
}

note_stored : (Redb.store_descriptor_at sample codec empty_disk note noon none).0 ≡ ok tt
unfolding Redb.store_descriptor_at lookup
note_stored =
    simp
      (
        Redb.store_descriptor_at,
        made-valid alice key_a topic (4 ∷ 5 ∷ []) (omega arith) (omega arith),
      )
      refl

of_some : {b c : Bytes} → some b ≡ some c → c ≡ b
of_some e = cc

store_descriptor_at-read_example : Elem note (
    get_descriptors_at sample codec
      (Redb.store_descriptor_at sample codec empty_disk note noon none).1
      key_a
      none
      noon)
unfolding create
store_descriptor_at-read_example =
    store_descriptor_at-read sample codec empty_disk note noon none key_a
      (λ cbor e. ap (λ b. some (made alice key_a topic b)) (of_some e)) note_stored (inl refl)

hash_bytes_some : (h : Hash) → hash_bytes h ≢ []
unfolding hash_bytes
hash_bytes_some h e = absurd cc

none_is_some : {A : Type 0} (a : A) → none ≢ some a
none_is_some a e = absurd cc

-- a descriptor under an id of no byte
abbrev odd_disk : RedbStorage
odd_disk = record empty_disk { descriptors = ([], 5 ∷ []) ∷ [] }

store_descriptor_at-other_example :
    lookup [] (Redb.store_descriptor_at sample codec odd_disk note noon none).1.descriptors
    ≡ lookup [] odd_disk.descriptors
unfolding lookup
store_descriptor_at-other_example =
    store_descriptor_at-other sample codec odd_disk note noon none [] (hash_bytes_some note.id)
      (none_is_some [])

-- the note on disk
abbrev note_disk : RedbStorage
note_disk = record {
  descriptors = (hash_bytes note.id, 4 ∷ 5 ∷ []) ∷ [];
  by_routing_key = [];
  dedup_index = [];
  sequences = (dedup_key sample codec note, 1) ∷ [];
  rate_timestamps = [];
  skip_rate_limit = false;
}

-- an older version that lives longer
abbrev older : Descriptor
older = create sample alice key_a topic (6 ∷ []) noon 0 86400 (key_a ∷ [])

evict_expired_at-replay_example :
    (Redb.store_descriptor_at sample codec
      (Redb.evict_expired_at sample codec note_disk (noon + 3600000000))
      older
      (noon + 3600000000)
      none).0
    ≡ ok tt
unfolding lookup list_beq hash_bytes dedup_key create effective_end Redb.evict_expired_at
    Redb.check_rate_limit compute_id blake3 write_value canonical_value
evict_expired_at-replay_example =
    evict_expired_at-replay sample codec note_disk (noon + 3600000000) (noon + 3600000000)
      (hash_bytes note.id) (4 ∷ 5 ∷ []) (6 ∷ []) note older refl refl refl refl
      (validate-create sample sample-SignatureLaws alice key_a topic (6 ∷ []) noon 0 86400
        (key_a ∷ []) (noon + 3600000000) (omega arith) (omega arith) (omega arith) (omega arith)
        (omega arith) (omega arith) (omega arith) (omega arith) (omega arith))
      refl refl

note_taken : (storage.store_descriptor_at new note noon).0 ≡ ok tt
unfolding new check_and_record lookup create
note_taken =
    (store_descriptor_at_iff sample new (new-IsValid sample) note note-IsPlain noon (omega arith)
        (omega arith)).0.1
      (record {
        valid = made-valid alice key_a topic (4 ∷ 5 ∷ []) (omega arith) (omega arith);
        within_rate = refl;
        newest = λ current e. absurd (none_is_some current e);
      })

abbrev cached : CachedStorage DescriptorStore
cached = Cache.new new

get_descriptors-repeat_example :
    (get_descriptors storage
      (get_descriptors storage cached key_a none noon).1
      key_a
      none
      (noon + 9)).0
    ≡ (get_descriptors storage cached key_a none noon).0
get_descriptors-repeat_example = get_descriptors-repeat storage cached key_a none noon (noon + 9)

get_descriptors-store_example :
    ((storage.store_descriptor new note noon).0 ≡ ok tt
      → (get_descriptors storage
          (Cache.store_descriptor storage cached note noon).1
          key_a
          none
          noon).0
        ≡ retain
            (matches none)
            (storage.get_descriptors (storage.store_descriptor new note noon).1 key_a none noon).0)
    × ((storage.store_descriptor_at new note noon).0 ≡ ok tt
        → (get_descriptors storage
            (Cache.store_descriptor_at storage cached note noon).1
            key_a
            none
            noon).0
          ≡ retain
              (matches none)
              (storage.get_descriptors
                (storage.store_descriptor_at new note noon).1
                key_a
                none
                noon).0)
unfolding create Cache.new
get_descriptors-store_example =
    get_descriptors-store storage cached note noon noon key_a none (inl refl)

-- one account with a challenge
abbrev pub accounts : TenantManager
accounts =
    (create_challenge
      (create_tenant empty_tables (codes "t-1") (codes "acme") (codes "free") noon).1 (codes "t-1")
      (codes "did:mesh:h") (codes "register") (codes "c-1") (1 ∷ 2 ∷ []) noon).1

deduct_mu-IsDeduction_example :
    IsDeduction accounts (codes "t-1") (pos 70) (deduct_mu accounts (codes "t-1") (pos 70))
unfolding create_challenge create_tenant get_tenant list_beq
deduct_mu-IsDeduction_example =
    deduct_mu-IsDeduction accounts (codes "t-1") (pos 70) ((omega arith, omega arith), tt)
      (omega arith, omega arith)
      (λ t e. subst (λ u. HasRoom u.mu_balance (pos 70)) (some-injective _ _ e) (omega arith))

consume_challenge-once_example :
    ((c : DidAuthChallenge) × (get_challenge accounts (codes "c-1") ≡ some c))
    × (get_challenge (consume_challenge accounts (codes "c-1")).1 (codes "c-1") ≡ none)
    × ((consume_challenge (consume_challenge accounts (codes "c-1")).1 (codes "c-1")).0
        ≡ err already_consumed)
    × ((probe : Text)
        → probe ≢ codes "c-1"
        → get_challenge (consume_challenge accounts (codes "c-1")).1 probe
          ≡ get_challenge accounts probe)
unfolding create_challenge create_tenant consume_challenge list_beq
consume_challenge-once_example = consume_challenge-once accounts (codes "c-1") refl

abbrev hook : HubProtocolHook
hook = record {
  policy = default_policy;
  tenant_manager = accounts;
  rate_limiter = RateLimit.new RateLimit.default_limits;
}

pre_store_iff_example : ((pre_store sample hook note noon).0 ≡ ok tt) ↔ (
    ((check_identity sample hook.rate_limiter note.publisher RateLimit.store noon).0 ≡ ok tt)
    × IsAllowed sample hook.policy note (is_tenant hook note))
pre_store_iff_example = pre_store_iff sample hook note noon
