-- ===== src/Common/Entries.antt =====
-- The entries of a map by their keys, for loops over a snapshot of the keys that change the map.
use mathlib.Core.Path.{◌≡◌, subst, ap}
use mathlib.Core.Bool.{Bool, true}
use mathlib.Core.Option.{none, some}
use mathlib.Core.List.{List, [], ◌∷◌, map}
use mathlib.Core.Logic.{inl, inr}
use native.Mathlib.Omega.{arith}
use mars_protocol.Common.Tests.{if◌then◌else◌, Bool-cases}
use mars_protocol.Common.Equality.{Eq, ◌==◌, eq_iff}
use mars_protocol.Common.Lists.{Elem, retain, All_of_Elem}
use mars_protocol.Common.Assoc.{HashMap, lookup, modify, Distinct, AllEntries}

module _ {ℓ} {K V : Type ℓ} where
  -- the keys whose values pass a test, collected before a loop
  abbrev pub keys_where : (V → Bool) → HashMap K V → List K
  keys_where test m = map (λ e. e.0) (retain (λ e. test e.1) m)

module _ {ℓ} {A : Type ℓ} where
  -- no element twice
  abbrev pub NoRepeat : List A → Type ℓ
  NoRepeat [] = Unit {ℓ}
  NoRepeat (x ∷ xs) = (Elem x xs → ⊥) × NoRepeat xs

module _ {ℓ} {K V : Type ℓ} ⦃e : Eq K⦄ where
  pub lookup_of_Elem :
      (k : K) (v : V) (m : HashMap K V) → Distinct m → Elem (k, v) m → lookup k m ≡ some v
  unfolding lookup
  lookup_of_Elem k v [] d h = elim h [ ]
  lookup_of_Elem k v ((j, w) ∷ m) d (inl h) = ground (arith, eq_iff j k)
  lookup_of_Elem k v ((j, w) ∷ m) d (inr h) =
      let below = lookup_of_Elem k v m d.1 h in
      elim (Bool-cases (j == k)) [
        | inl same ↦
            let clash = subst (λ i. lookup i m ≡ none) ((eq_iff j k).0 same) d.0 in absurd cc
        | inr other ↦ rw other below
      ]

  pub lookup-modify :
      (k probe : K) (f : V → V) (m : HashMap K V)
      → lookup probe (modify k f m) ≡ (
          if k == probe
          then elim (lookup probe m) [ none ↦ none | some v ↦ some (f v) ]
          else lookup probe m)
  unfolding lookup modify
  lookup-modify k probe f [] = ground arith
  lookup-modify k probe f ((j, v) ∷ m) =
      ground (arith, lookup-modify k probe f m, eq_iff j k, eq_iff j probe, eq_iff k probe)

  pub modify-Distinct : (k : K) (f : V → V) (m : HashMap K V) → Distinct m → Distinct (modify k f m)
  unfolding modify
  modify-Distinct k f [] d = tt
  modify-Distinct k f ((j, v) ∷ m) d =
      (ground (arith, lookup-modify k j f m, d.0), modify-Distinct k f m d.1)

  pub Elem-keys_where :
      (k : K) (test : V → Bool) (m : HashMap K V)
      → Elem k (keys_where test m)
      → (v : V) × Elem (k, v) m × (test v ≡ true)
  Elem-keys_where k test [] h = elim h [ ]
  Elem-keys_where k test ((j, v) ∷ m) h = elim (Bool-cases (test v)) [
    | inr out ↦
        let (w, m', t) = Elem-keys_where k test m (
          subst
            (λ b. Elem k (
              map (λ (e : K × V). e.0)
                (if b then (j, v) ∷ retain (λ e. test e.1) m else retain (λ e. test e.1) m)))
            out h) in
        (w, inr m', t)
    | inl kept ↦
        elim (subst
          (λ b. Elem k (
            map (λ (e : K × V). e.0)
              (if b then (j, v) ∷ retain (λ e. test e.1) m else retain (λ e. test e.1) m)))
          kept h) [
            | inl same ↦ (v, inl (ap (λ i. (i, v)) same), kept)
            | inr later ↦ let (w, m', t) = Elem-keys_where k test m later in (w, inr m', t)
          ]
  ]

  pub keys_where-NoRepeat :
      (test : V → Bool) (m : HashMap K V) → Distinct m → NoRepeat (keys_where test m)
  keys_where-NoRepeat test [] d = tt
  keys_where-NoRepeat test ((j, v) ∷ m) d = elim (Bool-cases (test v)) [
    | inr out ↦ rw out (keys_where-NoRepeat test m d.1)
    | inl kept ↦ rw kept (
      λ h.
          let (w, m', t) = Elem-keys_where j test m h in
          let found = lookup_of_Elem j w m d.1 m' in cc,
      keys_where-NoRepeat test m d.1,
    )
  ]

  -- On a map, an entry whose key was collected passes the test.
  pub keys_where-passes :
      (test : V → Bool) (m : HashMap K V)
      → Distinct m
      → AllEntries (λ k v. Elem k (keys_where test m) → test v ≡ true) m
  keys_where-passes test m d = All_of_Elem _ m (λ (k, v) here h.
      let (w, m', t) = Elem-keys_where k test m h in
      let a = lookup_of_Elem k w m d m' in
      let b = lookup_of_Elem k v m d here in
      let same : w ≡ v = ground arith in subst (λ u. test u ≡ true) same t)
