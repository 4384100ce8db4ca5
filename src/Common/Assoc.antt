-- ===== src/Common/Assoc.antt =====
-- `HashMap` as an association list over a key with an equality. A key stands at most once, which
-- `Distinct` says and every operation keeps.
use mathlib.Core.Path.{◌≡◌, refl, sym, subst}
use mathlib.Core.Bool.{Bool, true, false}
use mathlib.Core.Option
use mathlib.Core.Option.{Option, none, some}
use mathlib.Core.List.{List, [], ◌∷◌}
use mathlib.Core.Logic.{inl, inr}
use native.Mathlib.Omega.{arith}
use mars_protocol.Common.Tests.{if◌then◌else◌, Bool-cases}
use mars_protocol.Common.Equality.{Eq, ◌==◌, eq_iff}
use mars_protocol.Common.Lists.{All}

abbrev pub unwrap_or {ℓ} : {A : Type ℓ} → Option A → A → A
unwrap_or none d = d
unwrap_or (some a) d = a

abbrev pub HashMap {ℓ} : Type ℓ → Type ℓ → Type ℓ
HashMap K V = List (K × V)

module _ {ℓ} {K V : Type ℓ} ⦃e : Eq K⦄ where
  -- `HashMap::get`
  unfoldable pub lookup : K → HashMap K V → Option V
  lookup k [] = none
  lookup k ((j, v) ∷ m) = let rest = lookup k m in if j == k then some v else rest

  -- `HashMap::insert`
  unfoldable pub insert : K → V → HashMap K V → HashMap K V
  insert k v [] = (k, v) ∷ []
  insert k v ((j, w) ∷ m) = let rest = insert k v m in if j == k then (j, v) ∷ m else (j, w) ∷ rest

  -- a change through `HashMap::get_mut`, of the entry under the key
  unfoldable pub modify : K → (V → V) → HashMap K V → HashMap K V
  modify k f [] = []
  modify k f ((j, v) ∷ m) = (j, if j == k then f v else v) ∷ modify k f m

  pub lookup-insert :
      (key probe : K) (v : V) (m : HashMap K V)
      → lookup probe (insert key v m) ≡ (if key == probe then some v else lookup probe m)
  unfolding insert lookup
  lookup-insert key probe v [] = refl
  lookup-insert key probe v ((at, w) ∷ m) =
      ground (arith, lookup-insert key probe v m, eq_iff at key, eq_iff at probe, eq_iff key probe)

  pub lookup-insert_self : (k : K) (v : V) (m : HashMap K V) → lookup k (insert k v m) ≡ some v
  lookup-insert_self k v m = ground (arith, lookup-insert k k v m, eq_iff k k)

  abbrev pub Distinct : HashMap K V → Type ℓ
  Distinct [] = Unit {ℓ}
  Distinct ((k, v) ∷ m) = (lookup k m ≡ none) × Distinct m

module _ {ℓ} {K V : Type ℓ} where
  -- `for v in map.values_mut() { *v = f(v) }`
  unfoldable pub map_values : (V → V) → HashMap K V → HashMap K V
  map_values f [] = []
  map_values f ((k, v) ∷ m) = (k, f v) ∷ map_values f m

  -- `map.retain(|_, v| keep(v))`
  unfoldable pub retain_values : (V → Bool) → HashMap K V → HashMap K V
  retain_values keep [] = []
  retain_values keep ((k, v) ∷ m) =
      let rest = retain_values keep m in if keep v then (k, v) ∷ rest else rest

module _ {ℓ} {K V : Type ℓ} ⦃e : Eq K⦄ where
  pub lookup-map_values :
      (f : V → V) (k : K) (m : HashMap K V) → lookup k (map_values f m) ≡ Option.map f (lookup k m)
  unfolding lookup map_values
  lookup-map_values f k [] = refl
  lookup-map_values f k ((j, v) ∷ m) = ground (arith, lookup-map_values f k m)

  lookup-retain_values-none :
      (keep : V → Bool) (k : K) (m : HashMap K V)
      → lookup k m ≡ none
      → lookup k (retain_values keep m) ≡ none
  unfolding lookup retain_values
  lookup-retain_values-none keep k [] h = refl
  lookup-retain_values-none keep k ((j, v) ∷ m) h =
      ground (arith, lookup-retain_values-none keep k m)

  -- A kept entry is found as before, and a dropped one is not found.
  pub lookup-retain_values :
      (keep : V → Bool) (k : K) (m : HashMap K V)
      → Distinct m
      → lookup k (retain_values keep m)
        ≡ elim (lookup k m) [ none ↦ none | some v ↦ if keep v then some v else none ]
  unfolding lookup retain_values
  lookup-retain_values keep k [] d = refl
  lookup-retain_values keep k ((j, v) ∷ m) d =
      ground
        (arith, eq_iff j k, lookup-retain_values keep k m d.1, lookup-retain_values-none keep k m)

  pub insert-Distinct : (k : K) (v : V) (m : HashMap K V) → Distinct m → Distinct (insert k v m)
  unfolding insert lookup
  insert-Distinct k v [] d = (refl, tt)
  insert-Distinct k v ((j, w) ∷ m) d = elim (Bool-cases (j == k)) [
    | inl same ↦ rw same d
    | inr other ↦ rw other (
      ground (arith, lookup-insert k j v m, eq_iff j k, eq_iff k j, d.0),
      insert-Distinct k v m d.1,
    )
  ]

  pub map_values-Distinct : (f : V → V) (m : HashMap K V) → Distinct m → Distinct (map_values f m)
  unfolding map_values
  map_values-Distinct f [] d = tt
  map_values-Distinct f ((k, v) ∷ m) d =
      (ground (arith, lookup-map_values f k m, d.0), map_values-Distinct f m d.1)

  pub retain_values-Distinct :
      (keep : V → Bool) (m : HashMap K V) → Distinct m → Distinct (retain_values keep m)
  unfolding retain_values
  retain_values-Distinct keep [] d = tt
  retain_values-Distinct keep ((k, v) ∷ m) d = elim (Bool-cases (keep v)) [
    | inl kept ↦ rw kept (lookup-retain_values-none keep k m d.0, retain_values-Distinct keep m d.1)
    | inr dropped ↦ rw dropped (retain_values-Distinct keep m d.1)
  ]

module _ {ℓ} {K V : Type ℓ} (P : K → V → Type ℓ) where
  -- every entry of a map satisfies `P`
  abbrev pub AllEntries : HashMap K V → Type ℓ
  AllEntries m = All (λ e. P e.0 e.1) m

  pub AllEntries-retain_values :
      (keep : V → Bool) (m : HashMap K V) → AllEntries m → AllEntries (retain_values keep m)
  unfolding retain_values
  AllEntries-retain_values keep [] h = tt
  AllEntries-retain_values keep ((k, v) ∷ m) h = elim (Bool-cases (keep v)) [
    | inl kept ↦ rw kept (h.0, AllEntries-retain_values keep m h.1)
    | inr dropped ↦ rw dropped (AllEntries-retain_values keep m h.1)
  ]

module _ {ℓ} {K V : Type ℓ} ⦃e : Eq K⦄ (P : K → V → Type ℓ) where
  pub AllEntries-insert :
      (k : K) (v : V) (m : HashMap K V) → P k v → AllEntries P m → AllEntries P (insert k v m)
  unfolding insert
  AllEntries-insert k v [] p h = (p, tt)
  AllEntries-insert k v ((j, w) ∷ m) p h = elim (Bool-cases (j == k)) [
    | inl same ↦ rw same (subst (λ i. P i v) (sym ((eq_iff j k).0 same)) p, h.1)
    | inr other ↦ rw other (h.0, AllEntries-insert k v m p h.1)
  ]

  pub AllEntries-lookup :
      (k : K) (m : HashMap K V) {v : V} → AllEntries P m → lookup k m ≡ some v → P k v
  unfolding lookup
  AllEntries-lookup k [] h f = cc
  AllEntries-lookup k ((j, w) ∷ m) {v} h f = elim (Bool-cases (j == k)) [
    | inl same ↦
        let v_eq : w ≡ v = ground arith in
        subst (P k) v_eq (subst (λ i. P i w) ((eq_iff j k).0 same) h.0)
    | inr other ↦ AllEntries-lookup k m h.1 (ground arith)
  ]

module _ {ℓ} {K V : Type ℓ} (P Q : K → V → Type ℓ) where
  pub AllEntries-map_values :
      (f : V → V) (m : HashMap K V)
      → ((k : K) (v : V) → P k v → Q k (f v))
      → AllEntries P m
      → AllEntries Q (map_values f m)
  unfolding map_values
  AllEntries-map_values f [] g h = tt
  AllEntries-map_values f ((k, v) ∷ m) g h = (g k v h.0, AllEntries-map_values f m g h.1)

module _ {ℓ} {K V : Type ℓ} ⦃e : Eq K⦄ (P Q : K → V → Type ℓ) where
  pub AllEntries-modify :
      (k : K) (f : V → V) (m : HashMap K V)
      → ((j : K) (v : V) → P j v → (j == k) ≡ true → Q j (f v))
      → ((j : K) (v : V) → P j v → (j == k) ≡ false → Q j v)
      → AllEntries P m
      → AllEntries Q (modify k f m)
  unfolding modify
  AllEntries-modify k f [] hit miss h = tt
  AllEntries-modify k f ((j, v) ∷ m) hit miss h = elim (Bool-cases (j == k)) [
    | inl same ↦ rw same (hit j v h.0 same, AllEntries-modify k f m hit miss h.1)
    | inr other ↦ rw other (miss j v h.0 other, AllEntries-modify k f m hit miss h.1)
  ]
