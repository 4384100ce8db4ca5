-- ===== src/Core/Descriptor.antt =====
-- mesh-core/src/descriptor.rs: the signed envelope of everything that the network stores.
pub mod Content
pub mod Validity
use mars_protocol.Common.{
  ℕ, ◌+◌, ◌*◌, ◌≤◌, ◌<◌, min, ◌≡◌, Bool, true, false, not, ◌||◌, List, [], ◌∷◌, length, is_empty,
  codes, Bytes, Text, Eq, nat_eq, list_eq, ◌==◌, ltb, leb, Result, ok, err, ◌>>=◌, ◌>>◌, reject_if,
  add_u64,
}
use mars_protocol.Core.External.{
  External, Value, Values, Entries, integer, bytes, text, array, table, nil, cons, end, entry,
}
use mars_protocol.Core.Error
use mars_protocol.Core.Error.{
  MeshError, id_mismatch, expired, timestamp_future, invalid_ttl, invalid_routing_keys, keys_empty,
  too_many_keys, payload_too_large, topic_too_long,
}
use mars_protocol.Core.Hash.{Hash, hash_eq, blake3, to_hex}
use mars_protocol.Core.Identity.{Identity, Keypair, identity, verify, sign}

abbrev pub max_payload_size : ℕ
max_payload_size = 65536

abbrev pub max_topic_size : ℕ
max_topic_size = 255

abbrev pub max_routing_keys : ℕ
max_routing_keys = 8

abbrev pub max_clock_skew_secs : ℕ
max_clock_skew_secs = 120

abbrev pub min_ttl_secs : ℕ
min_ttl_secs = 60

abbrev pub max_ttl_secs : ℕ
max_ttl_secs = 86400

pub record Descriptor : Type 0 where
  pub schema_hash : Hash
  pub topic : Text
  pub payload : Bytes
  pub publisher : Identity
  pub timestamp : ℕ
  pub sequence : ℕ
  pub ttl : ℕ
  pub routing_keys : List Hash
  pub id : Hash
  pub signature : Bytes

-- an algorithm byte and the bytes behind it, as an array
unfoldable pub tagged_value : ℕ → Bytes → Value
tagged_value algorithm body = array (cons (integer algorithm) (cons (bytes body) nil))

unfoldable pub hash_values : List Hash → Values
unfolding tagged_value
hash_values [] = nil
hash_values (h ∷ hs) = cons (tagged_value h.algorithm h.digest) (hash_values hs)

-- the map of `canonical_cbor_bytes`, in its order of keys
unfoldable pub canonical_value : Hash → Text → Bytes → Identity → ℕ → ℕ → ℕ → List Hash → Value
unfolding tagged_value hash_values
canonical_value schema_hash topic payload publisher timestamp sequence ttl routing_keys = table (
    entry (text (codes "ttl")) (integer ttl) (
      entry (text (codes "topic")) (text topic) (
        entry (text (codes "payload")) (bytes payload) (
          entry (text (codes "sequence")) (integer sequence) (
            entry (text (codes "publisher")) (tagged_value publisher.algorithm publisher.public_key)
              (entry (text (codes "timestamp")) (integer timestamp) (
                entry (text (codes "schema_hash"))
                  (tagged_value schema_hash.algorithm schema_hash.digest)
                  (entry (text (codes "routing_keys")) (array (hash_values routing_keys))
                    end))))))))

-- The end of a descriptor's life: min(timestamp, now) + ttl, on `u64`. A future timestamp buys no
-- time. The source writes the sum out in `validate` and in two methods of the store.
unfoldable pub effective_end : Descriptor → ℕ → ℕ
effective_end d now_micros = add_u64 (min d.timestamp now_micros) (d.ttl * 1000000)

module _ (x : External) where
  unfoldable pub compute_id : Hash → Text → Bytes → Identity → ℕ → ℕ → ℕ → List Hash → Hash
  compute_id schema_hash topic payload publisher timestamp sequence ttl routing_keys = blake3 x (
      x.write_cbor
        (canonical_value schema_hash topic payload publisher timestamp sequence ttl routing_keys))

  unfoldable pub create : Keypair → Hash → Text → Bytes → ℕ → ℕ → ℕ → List Hash → Descriptor
  create keypair schema_hash topic payload timestamp sequence ttl routing_keys =
      let publisher = identity x keypair in
      let id = compute_id schema_hash topic payload publisher timestamp sequence ttl routing_keys in
      record {
        schema_hash = schema_hash;
        topic = topic;
        payload = payload;
        publisher = publisher;
        timestamp = timestamp;
        sequence = sequence;
        ttl = ttl;
        routing_keys = routing_keys;
        id = id;
        signature = sign x keypair id.digest;
      }

  -- the id that the declared fields have
  abbrev pub computed_id : Descriptor → Hash
  computed_id d =
      compute_id d.schema_hash d.topic d.payload d.publisher d.timestamp d.sequence d.ttl
        d.routing_keys

  unfoldable pub validate : Descriptor → ℕ → Error.Result (Unit {0})
  validate d now_micros = do
    reject_if (not (computed_id d == d.id)) (id_mismatch (to_hex x d.id) (to_hex x (computed_id d)))
    verify x d.publisher d.id.digest d.signature
    reject_if (leb (effective_end d now_micros) now_micros) expired
    reject_if (ltb (add_u64 now_micros (max_clock_skew_secs * 1000000)) d.timestamp)
        (timestamp_future max_clock_skew_secs)
    reject_if (ltb d.ttl min_ttl_secs || ltb max_ttl_secs d.ttl)
        (invalid_ttl d.ttl min_ttl_secs max_ttl_secs)
    reject_if (is_empty d.routing_keys) (invalid_routing_keys keys_empty)
    reject_if (ltb max_routing_keys (length d.routing_keys))
        (invalid_routing_keys (too_many_keys (length d.routing_keys) max_routing_keys))
    reject_if (ltb max_payload_size (length d.payload))
        (payload_too_large (length d.payload) max_payload_size)
    reject_if (ltb max_topic_size (length d.topic)) (topic_too_long (length d.topic) max_topic_size)
    ok tt
