-- ===== src/Common/Equality.antt =====
-- Boolean equality as an interface, with its instances for numbers, byte strings and options.
use Prim.Native.Nat.{ℕ}
use mathlib.Core.Path.{◌≡◌, refl}
use mathlib.Core.Logic.{◌↔◌, inl, inr}
use mathlib.Core.Bool.{Bool, true, false, ◌&&◌}
use mathlib.Core.List.{List, [], ◌∷◌}
use native.Mathlib.Omega.{arith}
use mars_protocol.Common.Tests.{eqb, eqb_iff, Bool-cases}
use mars_protocol.Common.Lists.{any, Elem}

-- What `#[derive(PartialEq, Eq)]` gives.
pub record Eq {ℓ} (A : Type ℓ) : Type ℓ where
  pub beq : A → A → Bool
  pub beq_iff : (x y : A) → (beq x y ≡ true) ↔ (x ≡ y)

-- the instance that is found decides `==`
abbrev pub ◌==◌ {ℓ} : {A : Type ℓ} ⦃eq : Eq A⦄ → A → A → Bool
◌==◌ ⦃eq⦄ = eq.beq

infix 50 ◌==◌
pub eq_iff {ℓ} : {A : Type ℓ} ⦃e : Eq A⦄ (a b : A) → ((a == b) ≡ true) ↔ (a ≡ b)
eq_iff ⦃e⦄ a b = e.beq_iff a b

instance abbrev pub nat_eq : Eq ℕ
nat_eq = record { beq = eqb; beq_iff = eqb_iff }

module _ {ℓ} {A : Type ℓ} ⦃e : Eq A⦄ where
  unfoldable pub list_beq : List A → List A → Bool
  list_beq [] [] = true
  list_beq [] (y ∷ ys) = false
  list_beq (x ∷ xs) [] = false
  list_beq (x ∷ xs) (y ∷ ys) = x == y && list_beq xs ys

  pub list_beq_iff : (xs ys : List A) → (list_beq xs ys ≡ true) ↔ (xs ≡ ys)
  unfolding list_beq
  list_beq_iff [] [] = ground arith
  list_beq_iff [] (y ∷ ys) = ground arith
  list_beq_iff (x ∷ xs) [] = ground arith
  list_beq_iff (x ∷ xs) (y ∷ ys) = ground (arith, e.beq_iff x y, list_beq_iff xs ys)

instance abbrev pub list_eq {ℓ} : {A : Type ℓ} ⦃e : Eq A⦄ → Eq (List A)
list_eq = record { beq = list_beq; beq_iff = list_beq_iff }

module _ {ℓ} {A : Type ℓ} ⦃e : Eq A⦄ where
  -- what `contains` and `any(|b| b == a)` find
  pub any_iff : (a : A) (xs : List A) → (any (λ x. x == a) xs ≡ true) ↔ Elem a xs
  any_iff a [] = (λ h. absurd cc, λ m. elim m [ ])
  any_iff a (x ∷ xs) = elim (Bool-cases (x == a)) [
    | inl same ↦ rw same (λ h. inl ((eq_iff x a).0 same), λ m. refl)
    | inr other ↦ rw other (
      λ h. inr ((any_iff a xs).0 h),
      λ m. elim m [
        | inl h ↦ absurd (ground (arith, (eq_iff x a).1 h))
        | inr n ↦ (any_iff a xs).1 n
      ],
    )
  ]
