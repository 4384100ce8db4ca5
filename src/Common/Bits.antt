-- ===== src/Common/Bits.antt =====
-- Laws of `^` on numbers: its binary digits differ from those of its operands exactly as `differ`
-- says, so `a ^ b` is 0 only at `a = b`, and below a power of two it stays there.
use Prim.Native.Nat.{differ, digits, bit_xor-bitwise}
use native.Mathlib.Nat.{le_refl, pow-suc}
use mathlib.Core.Bool.{Bool, true, ◌&&◌}
use Prim.Native.Nat.{ℕ, zero, suc, ◌+◌, ◌*◌, ◌/◌, ◌%◌, ◌^◌, ◌≤◌, ◌<◌, bit_xor}
use mathlib.Core.Path.{◌≡◌, refl, sym}
use mathlib.Core.WellFounded
use native.Mathlib.Omega.{arith}
use mars_protocol.Common.Order.{lt_wf}

abbrev xor_digits : ℕ → ℕ → ℕ → ℕ
xor_digits n a b = digits (λ y. y) differ n a b

-- The recursion on digits takes at most `a` steps, so more fuel changes nothing.
xor_digits_fuel : (n m a b : ℕ) → a ≤ n → a ≤ m → xor_digits n a b ≡ xor_digits m a b
xor_digits_fuel zero zero a b p q = refl
xor_digits_fuel zero (suc m) zero b p q = refl
xor_digits_fuel zero (suc m) (suc a) b p q = absurd (omega arith)
xor_digits_fuel (suc n) zero zero b p q = refl
xor_digits_fuel (suc n) zero (suc a) b p q = absurd (omega arith)
xor_digits_fuel (suc n) (suc m) zero b p q = refl
xor_digits_fuel (suc n) (suc m) (suc a) b p q =
    rw (xor_digits_fuel n m (suc a / 2) (b / 2) (omega arith) (omega arith))

pub zero-bit_xor : (b : ℕ) → bit_xor 0 b ≡ b
zero-bit_xor b = bit_xor-bitwise 0 b

abbrev odd_sum : ℕ → ℕ → ℕ
odd_sum a b = (a + b) % 2

differ_bits : (a b : ℕ) → a < 2 → b < 2 → differ a b ≡ odd_sum a b
differ_bits zero zero p q = refl
differ_bits zero (suc zero) p q = refl
differ_bits zero (suc (suc b)) p q = absurd (omega arith)
differ_bits (suc zero) zero p q = refl
differ_bits (suc zero) (suc zero) p q = refl
differ_bits (suc zero) (suc (suc b)) p q = absurd (omega arith)
differ_bits (suc (suc a)) b p q = absurd (omega arith)

-- The lowest digit of `a ^ b`, and the rest.
pub bit_xor_step : (a b : ℕ) → bit_xor a b ≡ bit_xor (a / 2) (b / 2) * 2 + (a + b) % 2
bit_xor_step zero b = omega (arith, zero-bit_xor b, zero-bit_xor (b / 2))
bit_xor_step (suc a) b = omega (
  arith,
  bit_xor-bitwise (suc a) b,
  bit_xor-bitwise (suc a / 2) (b / 2),
  xor_digits_fuel a (suc a / 2) (suc a / 2) (b / 2) (omega arith) (le_refl _),
  differ_bits (suc a % 2) (b % 2) (omega arith) (omega arith),
)

module _ (P : ℕ → Type 0) (step : (n : ℕ) → ((m : ℕ) → m < n → P m) → P n) where
  by_halves : (n : ℕ) → P n
  by_halves n = WellFounded.induction lt_wf {C = P} n step

pub bit_xor_self : (a : ℕ) → bit_xor a a ≡ 0
bit_xor_self = by_halves (λ a. bit_xor a a ≡ 0) step
  where
    step : (n : ℕ) → ((m : ℕ) → m < n → bit_xor m m ≡ 0) → bit_xor n n ≡ 0
    step zero ih = zero-bit_xor 0
    step (suc n) ih = omega (arith, bit_xor_step (suc n) (suc n), ih (suc n / 2) (omega arith))

pub bit_xor_comm : (a b : ℕ) → bit_xor a b ≡ bit_xor b a
bit_xor_comm = by_halves (λ a. (b : ℕ) → bit_xor a b ≡ bit_xor b a) step
  where
    right_zero : (b : ℕ) → bit_xor b 0 ≡ b
    right_zero = by_halves (λ b. bit_xor b 0 ≡ b) zero_step
      where
        zero_step : (n : ℕ) → ((m : ℕ) → m < n → bit_xor m 0 ≡ m) → bit_xor n 0 ≡ n
        zero_step zero ih = zero-bit_xor 0
        zero_step (suc n) ih = omega (arith, bit_xor_step (suc n) 0, ih (suc n / 2) (omega arith))

    step :
        (n : ℕ)
        → ((m : ℕ) → m < n → (b : ℕ) → bit_xor m b ≡ bit_xor b m)
        → (b : ℕ) → bit_xor n b ≡ bit_xor b n
    step zero ih b = omega (arith, zero-bit_xor b, right_zero b)
    step (suc n) ih b = omega (
      arith,
      bit_xor_step (suc n) b,
      bit_xor_step b (suc n),
      ih (suc n / 2) (omega arith) (b / 2),
    )

-- `a` is determined by `t` and `t ^ a`.
pub bit_xor_cancel : (t a b : ℕ) → bit_xor t a ≡ bit_xor t b → a ≡ b
bit_xor_cancel = by_halves (λ t. (a b : ℕ) → bit_xor t a ≡ bit_xor t b → a ≡ b) step
  where
    step :
        (n : ℕ)
        → ((m : ℕ) → m < n → (a b : ℕ) → bit_xor m a ≡ bit_xor m b → a ≡ b)
        → (a b : ℕ) → bit_xor n a ≡ bit_xor n b
        → a ≡ b
    step zero ih a b h = omega (arith, zero-bit_xor a, zero-bit_xor b)
    step (suc n) ih a b h =
        let p = bit_xor_step (suc n) a in
        let q = bit_xor_step (suc n) b in
        let halves : a / 2 ≡ b / 2 = ih (suc n / 2) (omega arith) (a / 2) (b / 2) (omega arith) in
        omega arith

pub bit_xor_eq_zero : (a b : ℕ) → bit_xor a b ≡ 0 → a ≡ b
bit_xor_eq_zero a b h = sym (bit_xor_cancel a b a (omega (arith, bit_xor_self a)))

pub bit_xor-lt : (k a b : ℕ) → a < 2 ^ k → b < 2 ^ k → bit_xor a b < 2 ^ k
bit_xor-lt zero a b p q = ground (arith, zero-bit_xor b)
bit_xor-lt (suc k) a b p q = omega (
  arith,
  pow-suc 2 k,
  bit_xor_step a b,
  bit_xor-lt k (a / 2) (b / 2) (omega (arith, pow-suc 2 k)) (omega (arith, pow-suc 2 k)),
)

-- A table: a test that passes at every number below a bound.
unfoldable pub holds_below : ℕ → (ℕ → Bool) → Bool
holds_below zero test = true
holds_below (suc n) test = test n && holds_below n test

pub holds_below_sound :
    (n : ℕ) (test : ℕ → Bool) (i : ℕ) → holds_below n test ≡ true → i < n → test i ≡ true
unfolding holds_below
holds_below_sound zero test i h lt = absurd (omega arith)
holds_below_sound (suc n) test i h lt = ground (arith, holds_below_sound n test i)
