-- ===== src/Dht/Distance.antt =====
-- mesh-dht/src/distance.rs: the XOR metric on keys of 256 bits. The source reads the digests at the
-- indices 0 .. 31 and panics on one that is shorter; here the loop ends there, and the theorems take
-- keys of 32 bytes.
pub mod Metric
pub mod Value
pub mod Buckets
use mars_protocol.Common.{
  ℕ, zero, suc, ◌+◌, ◌-◌, Option, none, some, List, [], ◌∷◌, Bytes, eqb, leb, ltb, if◌then◌else◌,
  bit_xor, take,
}
use Prim.Native.Nat.{Ordering, compare}
use mars_protocol.Core.Hash.{Hash}

unfoldable pub xor_bytes : Bytes → Bytes → Bytes
xor_bytes [] bs = []
xor_bytes (a ∷ as_) [] = []
xor_bytes (a ∷ as_) (b ∷ bs) = bit_xor a b ∷ xor_bytes as_ bs

-- The source indexes the digests, so it panics on one shorter than 32 bytes; here the loop ends there.
unfoldable pub xor_distance : Hash → Hash → Bytes
unfolding xor_bytes
xor_distance a b = xor_bytes (take 32 a.digest) (take 32 b.digest)

-- `u8::leading_zeros`
unfoldable pub byte_leading_zeros : ℕ → ℕ
byte_leading_zeros b =
    if leb 128 b
    then 0
    else if leb 64 b
    then 1
    else if leb 32 b
    then 2
    else if leb 16 b
    then 3
    else if leb 8 b
    then 4
    else if leb 4 b
    then 5
    else if leb 2 b
    then 6
    else if leb 1 b
    then 7
    else 8

-- The loop: eight zeros for each zero byte, and those of the first other byte. The counter is the
-- accumulator of the source.
unfoldable pub leading_zeros_from : ℕ → Bytes → ℕ
unfolding byte_leading_zeros
leading_zeros_from zeros [] = zeros
leading_zeros_from zeros (byte ∷ rest) =
    let more = leading_zeros_from (zeros + 8) rest in
    if eqb byte 0 then more else zeros + byte_leading_zeros byte

unfoldable pub leading_zeros : Bytes → ℕ
unfolding leading_zeros_from
leading_zeros distance = leading_zeros_from 0 distance

unfoldable pub bucket_index : Bytes → Option ℕ
unfolding leading_zeros
bucket_index distance =
    let lz = leading_zeros distance in if leb 256 lz then none else some (255 - lz)

-- `[u8; 32]::cmp`: lexicographic
unfoldable pub cmp_bytes : Bytes → Bytes → Ordering
cmp_bytes [] [] = Ordering.eq
cmp_bytes [] (b ∷ bs) = Ordering.lt
cmp_bytes (a ∷ as_) [] = Ordering.gt
cmp_bytes (a ∷ as_) (b ∷ bs) = elim (compare a b) [
  | Ordering.lt ↦ Ordering.lt
  | Ordering.gt ↦ Ordering.gt
  | Ordering.eq ↦ cmp_bytes as_ bs
]

unfoldable pub distance_cmp : Hash → Hash → Hash → Ordering
unfolding xor_distance cmp_bytes
distance_cmp target a b = cmp_bytes (xor_distance target a) (xor_distance target b)
