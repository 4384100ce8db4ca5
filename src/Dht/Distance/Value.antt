-- ===== src/Dht/Distance/Value.antt =====
-- A distance as the unsigned integer that its bytes write, most significant byte first.
use Prim.Native.Nat.{Ordering, compare}
use mars_protocol.Common.{
  ℕ, zero, suc, ◌+◌, ◌*◌, ◌^◌, ◌<◌, ◌≡◌, refl, sym, ap, ◌∙◌, [], ◌∷◌, Bytes, length, All, IsByte,
  arith, ◌⊎◌, inl, inr,
}
use native.Mathlib.Nat.{pow-suc, suc-add, zero-add}
use mars_protocol.Dht.Distance.{cmp_bytes}

unfoldable pub be_value : Bytes → ℕ
be_value [] = 0
be_value (b ∷ bs) = b * 2 ^ (8 * length bs) + be_value bs

pub two-pow-add : (m n : ℕ) → 2 ^ (m + n) ≡ 2 ^ m * 2 ^ n
two-pow-add zero n = rw zero-add (omega arith)
two-pow-add (suc m) n = rw suc-add (
    omega (
      arith,
      pow-suc 2 (m + n),
      pow-suc 2 m,
      two-pow-add m n,
      ap (λ (t : ℕ). t * 2 ^ n) (pow-suc 2 m),
    ))

pub two-pow-eight : (n : ℕ) → 2 ^ (8 * suc n) ≡ 256 * 2 ^ (8 * n)
two-pow-eight n =
    let e : 8 * suc n ≡ 8 + 8 * n = omega arith in ap (λ (t : ℕ). 2 ^ t) e ∙ two-pow-add 8 (8 * n)

pub be_value-lt : (bs : Bytes) → All IsByte bs → be_value bs < 2 ^ (8 * length bs)
unfolding be_value
be_value-lt [] h = omega arith
be_value-lt (b ∷ bs) h = grind (arith, two-pow-eight (length bs), be_value-lt bs h.1, h.0)

compare_lt : (a b : ℕ) → a < b → compare a b ≡ Ordering.lt
compare_lt a b h = ground arith

compare_gt : (a b : ℕ) → b < a → compare a b ≡ Ordering.gt
compare_gt a b h = ground arith

compare_cases :
    (a b : ℕ)
    → ((a < b) × (compare a b ≡ Ordering.lt))
      ⊎ (((b < a) × (compare a b ≡ Ordering.gt)) ⊎ ((a ≡ b) × (compare a b ≡ Ordering.eq)))
compare_cases a b = ground arith

-- a larger leading digit outweighs all that follows
leading : (a b v w p : ℕ) → a < b → v < p → a * p + v < b * p + w
leading a b v w p h k = grind arith

compare_shift : (k v w : ℕ) → compare (k + v) (k + w) ≡ compare v w
compare_shift k v w = ground arith

-- The lexicographic order of equally long byte arrays is the order of the integers they write.
pub cmp_bytes-be_value :
    (xs ys : Bytes)
    → All IsByte xs
    → All IsByte ys
    → length xs ≡ length ys
    → cmp_bytes xs ys ≡ compare (be_value xs) (be_value ys)
unfolding cmp_bytes be_value
cmp_bytes-be_value [] [] hx hy e = refl
cmp_bytes-be_value [] (y ∷ ys) hx hy e = absurd (omega arith)
cmp_bytes-be_value (x ∷ xs) [] hx hy e = absurd (omega arith)
cmp_bytes-be_value (x ∷ xs) (y ∷ ys) hx hy e =
    let size : length xs ≡ length ys = omega arith in
    let p = 2 ^ (8 * length ys) in
    let below_x : be_value xs < p = rw (← size) (be_value-lt xs hx.1) in
    elim (compare_cases x y) [
      | inl (l, c) ↦ rw (c, cmp_bytes, size) (sym (compare_lt _ _ (leading x y _ _ p l below_x)))
      | inr (inl (g, c)) ↦
          rw (c, cmp_bytes, size) (sym (compare_gt _ _ (leading y x _ _ p g (be_value-lt ys hy.1))))
      | inr (inr (q, c)) ↦
          rw (c, cmp_bytes, size, q)
            (cmp_bytes-be_value xs ys hx.1 hy.1 size ∙ sym (compare_shift _ _ _))
    ]
