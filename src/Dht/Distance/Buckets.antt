-- ===== src/Dht/Distance/Buckets.antt =====
-- The bucket of a distance: bucket `i` holds the distances from 2 ^ i up to 2 ^ (i + 1).
use mars_protocol.Common.{
  ℕ, zero, suc, ◌+◌, ◌*◌, ◌-◌, ◌^◌, ◌≤◌, ◌<◌, ◌≡◌, ◌⊎◌, inl, inr, refl, ◌∙◌, none, some, [], ◌∷◌,
  Bytes, length, All, IsByte, arith, Bool, true, ◌&&◌, ◌||◌, eqb, leb, ltb,
}
use mars_protocol.Common.Bits.{holds_below, holds_below_sound}
use native.Mathlib.Nat.{pow-suc}
use native.Mathlib.Numerals.{add-one}
use mars_protocol.Dht.Distance.{byte_leading_zeros, leading_zeros_from, leading_zeros, bucket_index}
use mars_protocol.Dht.Distance.Value.{be_value, be_value-lt, two-pow-add}

abbrev in_octave : ℕ → Bool
in_octave b =
    let k = 7 - byte_leading_zeros b in
    eqb b 0 || leb (byte_leading_zeros b) 7 && leb (2 ^ k) b && ltb b (2 * 2 ^ k)

octaves : holds_below 256 in_octave ≡ true
unfolding holds_below byte_leading_zeros
octaves = refl

-- The highest bit of a byte stands behind its leading zeros.
byte_range :
    (b : ℕ)
    → IsByte b
    → 0 < b
    → (k : ℕ) × (byte_leading_zeros b + k ≡ 7) × (2 ^ k ≤ b) × (b < 2 * 2 ^ k)
byte_range b h pos =
    let t : in_octave b ≡ true = holds_below_sound 256 in_octave b octaves h in
    (7 - byte_leading_zeros b, ground arith, ground arith, ground arith)

leading_zeros_from_add :
    (z : ℕ) (bs : Bytes) → leading_zeros_from z bs ≡ z + leading_zeros_from 0 bs
unfolding leading_zeros_from
leading_zeros_from_add z [] = omega arith
leading_zeros_from_add z (b ∷ bs) =
    ground (arith, leading_zeros_from_add (z + 8) bs, leading_zeros_from_add 8 bs)

-- what the count of leading zeros says of a distance that is not zero
record Octave (bs : Bytes) (k : ℕ) : Type 0 where
  pub zeros : leading_zeros bs + k + 1 ≡ 8 * length bs
  pub low : 2 ^ k ≤ be_value bs
  pub high : be_value bs < 2 ^ (k + 1)

record AllZero (bs : Bytes) : Type 0 where
  pub zeros : leading_zeros bs ≡ 8 * length bs
  pub value : be_value bs ≡ 0

scale : (a b p v : ℕ) → a ≤ b → a * p ≤ b * p + v
scale a b p v h = grind arith

scale_lt : (b a p v : ℕ) → b < a → v < p → b * p + v < a * p
scale_lt b a p v h k = grind arith

leading_zeros_zero : (bs : Bytes) → leading_zeros (0 ∷ bs) ≡ 8 + leading_zeros bs
unfolding leading_zeros leading_zeros_from
leading_zeros_zero bs = leading_zeros_from_add 8 bs

leading_zeros_pos : (b : ℕ) (bs : Bytes) → 0 < b → leading_zeros (b ∷ bs) ≡ byte_leading_zeros b
unfolding leading_zeros leading_zeros_from
leading_zeros_pos b bs h = ground arith

after_zero :
    (bs : Bytes)
    → AllZero bs ⊎ ((k : ℕ) × Octave bs k)
    → AllZero (0 ∷ bs) ⊎ ((k : ℕ) × Octave (0 ∷ bs) k)
unfolding be_value
after_zero bs (inl z) = inl (record {
  zeros = omega (arith, z.zeros, leading_zeros_zero bs);
  value = omega (arith, z.value);
})
after_zero bs (inr (k, o)) = inr (
  k,
  record {
    zeros = omega (arith, o.zeros, leading_zeros_zero bs);
    low = omega (arith, o.low);
    high = omega (arith, o.high);
  },
)

at_byte : (b : ℕ) (bs : Bytes) → IsByte b → 0 < b → All IsByte bs → (k : ℕ) × Octave (b ∷ bs) k
unfolding be_value
at_byte b bs h pos hs =
    let (k, zeros, low, high) = byte_range b h pos in
    let p = 2 ^ (8 * length bs) in
    let split : 2 ^ (k + 8 * length bs) ≡ 2 ^ k * p = two-pow-add k (8 * length bs) in
    let below : b * p + be_value bs < 2 * 2 ^ k * p =
      scale_lt b (2 * 2 ^ k) p _ high (be_value-lt bs hs) in
    let next : 2 ^ (k + 8 * length bs + 1) ≡ 2 * 2 ^ (k + 8 * length bs) =
      rw add-one (pow-suc 2 _ ∙ omega arith) in
    (
      k + 8 * length bs,
      record {
        zeros = omega (arith, zeros, leading_zeros_pos b bs pos);
        low = rw split (scale (2 ^ k) b p (be_value bs) low);
        high = omega (arith, split, below, next);
      },
    )

leading_zeros_range : (bs : Bytes) → All IsByte bs → AllZero bs ⊎ ((k : ℕ) × Octave bs k)
leading_zeros_range [] h = inl (record {
  zeros = unfold leading_zeros leading_zeros_from in refl;
  value = unfold be_value in refl;
})
leading_zeros_range (zero ∷ bs) h = after_zero bs (leading_zeros_range bs h.1)
leading_zeros_range (suc b ∷ bs) h = inr (at_byte (suc b) bs h.0 (omega arith) h.1)

-- A distance of 32 bytes has no bucket exactly if it is zero; else its bucket i is below 256 and
-- the distance lies from 2^i up to 2^(i+1).
pub bucket_index_range :
    (d : Bytes)
    → length d ≡ 32
    → All IsByte d
    → ((bucket_index d ≡ none) × (be_value d ≡ 0))
      ⊎ ((i : ℕ) × (bucket_index d ≡ some i)
          × (i < 256)
          × (2 ^ i ≤ be_value d)
          × (be_value d < 2 ^ (i + 1)))
unfolding bucket_index
bucket_index_range d size h = elim (leading_zeros_range d h) [
  | inl z ↦ inl (ground (arith, z.zeros), z.value)
  | inr (k, o) ↦ inr (k, ground (arith, o.zeros), omega (arith, o.zeros), o.low, o.high)
]
