-- ===== src/Core/Descriptor/Content.antt =====
-- What the content hash of a descriptor covers.
use mars_protocol.Common.{ℕ, ◌≡◌, refl, List, [], ◌∷◌, arith, Bytes, Text}
use mars_protocol.Core.Hash.{Hash}
use mars_protocol.Core.Identity.{Identity}
use mars_protocol.Core.Descriptor.{tagged_value, hash_values, canonical_value}

hash-eq :
    (h k : Hash) → tagged_value h.algorithm h.digest ≡ tagged_value k.algorithm k.digest → h ≡ k
unfolding tagged_value
hash-eq h k e = ground arith

hash_values_injective : (hs ks : List Hash) → hash_values hs ≡ hash_values ks → hs ≡ ks
unfolding hash_values
hash_values_injective [] [] e = refl
hash_values_injective [] (k ∷ ks) e = cc
hash_values_injective (h ∷ hs) [] e = cc
hash_values_injective (h ∷ hs) (k ∷ ks) e = ground (arith, hash-eq h k, hash_values_injective hs ks)

-- The map that is hashed determines all eight fields: two descriptors with the same canonical
-- value have the same schema, topic, payload, publisher, timestamp, sequence, ttl and routing
-- keys.
pub canonical_value_injective :
    (s s' : Hash) (t t' : Text) (p p' : Bytes) (i i' : Identity) (w w' n n' l l' : ℕ)
    (ks ks' : List Hash)
    → canonical_value s t p i w n l ks ≡ canonical_value s' t' p' i' w' n' l' ks'
    → (s ≡ s') × (t ≡ t') × (p ≡ p') × (i ≡ i') × (w ≡ w') × (n ≡ n') × (l ≡ l') × (ks ≡ ks')
unfolding canonical_value
canonical_value_injective s s' t t' p p' i i' w w' n n' l l' ks ks' e =
    ground (arith, hash_values_injective ks ks')
