-- ===== src/Core/Descriptor/Validity.antt =====
-- `validate` against the rules of the protocol, and what a publisher creates against `validate`.
use mars_protocol.Common.{
  ℕ, ◌+◌, ◌*◌, ◌≤◌, ◌<◌, min, ◌≡◌, refl, ◌↔◌, true, List, length, arith, Bytes, Text, ok, nat_eq,
  list_eq, IsClock, IsU32, eq_iff,
}
use mars_protocol.Core.External.{External, SignatureLaws}
use mars_protocol.Core.Hash.{Hash, hash_eq}
use mars_protocol.Core.Identity.{Identity, Keypair, identity, verify, sign, alg_ed25519}
use mars_protocol.Core.Descriptor.{
  Descriptor, effective_end, computed_id, create, validate, max_payload_size, max_topic_size,
  max_routing_keys, max_clock_skew_secs, min_ttl_secs, max_ttl_secs,
}

module _ (x : External) where
  -- an Ed25519 signature of the message, by the key of the identity
  pub record IsSignature (i : Identity) (message signature : Bytes) : Type 0 where
    pub algorithm : i.algorithm ≡ alg_ed25519
    pub key_size : length i.public_key ≡ 32
    pub key : x.is_verifying_key i.public_key ≡ true
    pub signature_size : length signature ≡ 64
    pub verifies : x.ed25519_verify i.public_key message signature ≡ true

  verify_iff : (i : Identity) (m s : Bytes) → (verify x i m s ≡ ok tt) ↔ IsSignature i m s
  unfolding verify
  verify_iff i m s = (λ h. ground arith, λ h. ground arith)

  -- the rules of the protocol, over numbers that do not wrap
  pub record IsAcceptable (d : Descriptor) (now : ℕ) : Type 0 where
    pub content : computed_id x d ≡ d.id
    pub signed : IsSignature d.publisher d.id.digest d.signature
    pub alive : now < min d.timestamp now + d.ttl * 1000000
    pub not_future : d.timestamp ≤ now + max_clock_skew_secs * 1000000
    pub ttl_low : min_ttl_secs ≤ d.ttl
    pub ttl_high : d.ttl ≤ max_ttl_secs
    pub keys_some : 1 ≤ length d.routing_keys
    pub keys_few : length d.routing_keys ≤ max_routing_keys
    pub payload_fits : length d.payload ≤ max_payload_size
    pub topic_fits : length d.topic ≤ max_topic_size

  module _ (d : Descriptor) (now : ℕ) (clock : IsClock now) (word : IsU32 d.ttl) where
    validate_sound : validate x d now ≡ ok tt → IsAcceptable d now
    unfolding validate effective_end
    validate_sound h = record {
      content = ground (arith, eq_iff (computed_id x d) d.id);
      signed =
          (verify_iff d.publisher d.id.digest d.signature).0
            (ground (arith, eq_iff (computed_id x d) d.id));
      alive = ground arith;
      not_future = ground arith;
      ttl_low = ground arith;
      ttl_high = ground arith;
      keys_some = ground arith;
      keys_few = ground arith;
      payload_fits = ground arith;
      topic_fits = ground arith;
    }

    validate_complete : IsAcceptable d now → validate x d now ≡ ok tt
    unfolding validate effective_end
    validate_complete a =
        let signed = (verify_iff d.publisher d.id.digest d.signature).1 a.signed in
        ground (arith, signed, eq_iff (computed_id x d) d.id)

    -- By a clock below 2^63 and for a ttl of 32 bits, validate accepts a descriptor exactly when
    -- it is acceptable: its id is the hash of its content, the Ed25519 key of its publisher signed
    -- the id, it is alive, at most 120 s ahead of the clock, its ttl lies in 60..86400 s, it has 1
    -- to 8 routing keys, and payload and topic keep their limits.
    pub validate_iff : (validate x d now ≡ ok tt) ↔ IsAcceptable d now
    validate_iff = (validate_sound, validate_complete)

  module _ (laws : SignatureLaws x) (kp : Keypair) where
    sign-IsSignature : (m : Bytes) → IsSignature (identity x kp) m (sign x kp m)
    unfolding identity sign
    sign-IsSignature m = record {
      algorithm = refl;
      key_size = laws.length-ed25519_public kp.signing_key;
      key = laws.is_verifying_key-ed25519_public kp.signing_key;
      signature_size = laws.length-ed25519_sign kp.signing_key m;
      verifies = laws.ed25519_verify-sign kp.signing_key m;
    }

    module _ (schema : Hash) (topic : Text) (payload : Bytes) (timestamp sequence ttl : ℕ)
        (keys : List Hash) where
      abbrev created : Descriptor
      created = create x kp schema topic payload timestamp sequence ttl keys

      -- By a clock below 2^63 and if a key verifies what it signs, what create makes within the
      -- limits is accepted from its timestamp on, until its ttl is over, and already 120 s before
      -- by a clock that lags behind.
      pub validate-create :
          (now : ℕ)
          → IsClock now
          → timestamp ≤ now + max_clock_skew_secs * 1000000
          → now < timestamp + ttl * 1000000
          → min_ttl_secs ≤ ttl
          → ttl ≤ max_ttl_secs
          → 1 ≤ length keys
          → length keys ≤ max_routing_keys
          → length payload ≤ max_payload_size
          → length topic ≤ max_topic_size
          → validate x created now ≡ ok tt
      unfolding create
      validate-create now clock early late low high some_keys few fits short =
          validate_complete created now clock (omega arith) (record {
            content = refl;
            signed = sign-IsSignature created.id.digest;
            alive = omega arith;
            not_future = early;
            ttl_low = low;
            ttl_high = high;
            keys_some = some_keys;
            keys_few = few;
            payload_fits = fits;
            topic_fits = short;
          })
