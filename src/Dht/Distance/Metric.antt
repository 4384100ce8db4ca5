-- ===== src/Dht/Distance/Metric.antt =====
-- The XOR metric: symmetric, zero exactly at the same key, and one key for each distance.
use Prim.Native.Nat.{Ordering, compare}
use mars_protocol.Common.{
  ℕ, ◌≡◌, ◌↔◌, refl, sym, ap, ◌∙◌, [], ◌∷◌, Bytes, length, All, IsByte, arith, replicate, take,
  take_of_length-le,
}
use mars_protocol.Common.Bits.{bit_xor_self, bit_xor_comm, bit_xor_cancel, bit_xor-lt}
use mars_protocol.Core.Hash.{Hash}
use mars_protocol.Dht.Distance.{xor_bytes, xor_distance, cmp_bytes, distance_cmp}
use mars_protocol.Dht.Distance.Value.{be_value, cmp_bytes-be_value}

-- a key of the key space: 32 bytes
pub record IsKey (h : Hash) : Type 0 where
  pub size : length h.digest ≡ 32
  pub in_range : All IsByte h.digest

pub xor_bytes_comm : (as_ bs : Bytes) → xor_bytes as_ bs ≡ xor_bytes bs as_
unfolding xor_bytes
xor_bytes_comm [] [] = refl
xor_bytes_comm [] (b ∷ bs) = refl
xor_bytes_comm (a ∷ as_) [] = refl
xor_bytes_comm (a ∷ as_) (b ∷ bs) = cc (bit_xor_comm a b, xor_bytes_comm as_ bs)

pub length-xor_bytes :
    (as_ bs : Bytes) → length as_ ≡ length bs → length (xor_bytes as_ bs) ≡ length bs
unfolding xor_bytes
length-xor_bytes [] bs h = h
length-xor_bytes (a ∷ as_) [] h = absurd (omega arith)
length-xor_bytes (a ∷ as_) (b ∷ bs) h = omega (arith, length-xor_bytes as_ bs)

pub xor_bytes-IsByte :
    (as_ bs : Bytes) → All IsByte as_ → All IsByte bs → All IsByte (xor_bytes as_ bs)
unfolding xor_bytes
xor_bytes-IsByte [] bs h k = tt
xor_bytes-IsByte (a ∷ as_) [] h k = tt
xor_bytes-IsByte (a ∷ as_) (b ∷ bs) h k =
    (bit_xor-lt 8 a b h.0 k.0, xor_bytes-IsByte as_ bs h.1 k.1)

xor_bytes_cancel :
    (ts as_ bs : Bytes)
    → length as_ ≡ length ts
    → length bs ≡ length ts
    → xor_bytes ts as_ ≡ xor_bytes ts bs
    → as_ ≡ bs
unfolding xor_bytes
xor_bytes_cancel [] [] [] h k e = refl
xor_bytes_cancel [] (a ∷ as_) bs h k e = absurd (omega arith)
xor_bytes_cancel [] [] (b ∷ bs) h k e = absurd (omega arith)
xor_bytes_cancel (t ∷ ts) [] bs h k e = absurd (omega arith)
xor_bytes_cancel (t ∷ ts) (a ∷ as_) [] h k e = absurd (omega arith)
xor_bytes_cancel (t ∷ ts) (a ∷ as_) (b ∷ bs) h k e =
    ground (arith, bit_xor_cancel t a b, xor_bytes_cancel ts as_ bs (omega arith) (omega arith))

xor_bytes_self : (as_ : Bytes) → xor_bytes as_ as_ ≡ replicate (length as_) 0
unfolding xor_bytes
xor_bytes_self [] = refl
xor_bytes_self (a ∷ as_) = cc (bit_xor_self a, xor_bytes_self as_)

cmp_bytes_refl : (bs : Bytes) → cmp_bytes bs bs ≡ Ordering.eq
unfolding cmp_bytes
cmp_bytes_refl [] = refl
cmp_bytes_refl (b ∷ bs) = ground (arith, cmp_bytes_refl bs)

cmp_bytes_eq : (as_ bs : Bytes) → cmp_bytes as_ bs ≡ Ordering.eq → as_ ≡ bs
unfolding cmp_bytes
cmp_bytes_eq [] [] e = refl
cmp_bytes_eq [] (b ∷ bs) e = cc
cmp_bytes_eq (a ∷ as_) [] e = cc
cmp_bytes_eq (a ∷ as_) (b ∷ bs) e = ground (arith, cmp_bytes_eq as_ bs)

take-digest : {h : Hash} → IsKey h → take 32 h.digest ≡ h.digest
take-digest {h} k = take_of_length-le 32 h.digest (omega (arith, k.size))

pub xor_distance-key :
    {a b : Hash} → IsKey a → IsKey b → xor_distance a b ≡ xor_bytes a.digest b.digest
unfolding xor_distance
xor_distance-key ha hb = rw (take-digest ha, take-digest hb)

-- the distance as an integer below 2 ^ 256
abbrev pub distance : Hash → Hash → ℕ
distance a b = be_value (xor_distance a b)

module _ {a b : Hash} (ha : IsKey a) (hb : IsKey b) where
  pub length-xor_distance : length (xor_distance a b) ≡ 32
  length-xor_distance =
      rw (xor_distance-key ha hb)
        (omega (arith, ha.size, hb.size, length-xor_bytes a.digest b.digest))

  pub xor_distance-IsByte : All IsByte (xor_distance a b)
  xor_distance-IsByte =
      rw (xor_distance-key ha hb) (xor_bytes-IsByte a.digest b.digest ha.in_range hb.in_range)

  -- The distance of two keys is zero exactly if the keys have the same digest.
  pub xor_distance_zero_iff : (xor_distance a b ≡ replicate 32 0) ↔ (a.digest ≡ b.digest)
  xor_distance_zero_iff = rw (xor_distance-key ha hb) (
    λ e. sym (
        xor_bytes_cancel a.digest b.digest a.digest (omega (arith, ha.size, hb.size)) refl
          (e ∙ ap (λ n. replicate n 0) (sym ha.size) ∙ sym (xor_bytes_self a.digest))),
    λ e. rw (← e) (xor_bytes_self a.digest ∙ ap (λ n. replicate n 0) ha.size),
  )

module _ {t a b : Hash} (ht : IsKey t) (ha : IsKey a) (hb : IsKey b) where
  -- For keys of 32 bytes distance_cmp orders them by their XOR distance to the target as integers
  -- of 256 bits.
  pub distance_cmp-distance : distance_cmp t a b ≡ compare (distance t a) (distance t b)
  unfolding distance_cmp
  distance_cmp-distance =
      cmp_bytes-be_value _ _ (xor_distance-IsByte ht ha) (xor_distance-IsByte ht hb)
        (length-xor_distance ht ha ∙ sym (length-xor_distance ht hb))

  -- Two keys of 32 bytes are equally far from a target exactly if they have the same digest.
  pub distance_cmp-eq_iff : (distance_cmp t a b ≡ Ordering.eq) ↔ (a.digest ≡ b.digest)
  unfolding distance_cmp
  distance_cmp-eq_iff =
      rw (xor_distance-key ht ha, xor_distance-key ht hb)
        (
          λ e.
              xor_bytes_cancel t.digest a.digest b.digest (omega (arith, ha.size, ht.size))
                (omega (arith, hb.size, ht.size)) (cmp_bytes_eq _ _ e),
          λ e. rw e (cmp_bytes_refl (xor_bytes t.digest b.digest)),
        )

-- The distance is symmetric.
pub xor_distance_comm : (a b : Hash) → xor_distance a b ≡ xor_distance b a
unfolding xor_distance
xor_distance_comm a b = xor_bytes_comm (take 32 a.digest) (take 32 b.digest)
