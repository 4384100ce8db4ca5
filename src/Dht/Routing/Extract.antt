-- ===== src/Dht/Routing/Extract.antt =====
-- Taking a node out of a bucket of mesh-dht/src/routing.rs, and lists without a node twice.
use mars_protocol.Common.{
  ◌≡◌, ◌≢◌, inl, inr, sym, Bool, true, false, none, some, List, [], ◌∷◌, ◌++◌, retain, All,
  All-append, All-retain, arith, Bool-cases, Option-cases,
}
use mars_protocol.Core.Hash.{hash_eq}
use mars_protocol.Core.Identity.{Identity, identity_eq}
use mars_protocol.Core.Message.{NodeInfo}
use mars_protocol.Dht.Routing.{extract}

-- what `extract` returned, as a relation: the element that was taken out, and the list around it
pub record Extracted {ℓ} {A : Type ℓ} (test : A → Bool) (es : List A) (f : A) (rest : List A)
    : Type ℓ where
  pub before : List A
  pub after : List A
  pub whole : es ≡ before ++ f ∷ after
  pub without : rest ≡ before ++ after
  pub passes : test f ≡ true

module _ {ℓ} {A : Type ℓ} (test : A → Bool) where
  pub extract-none : (es : List A) → extract test es ≡ none → All (λ e. test e ≡ false) es
  unfolding extract
  extract-none [] h = tt
  extract-none (e ∷ es) h = (ground arith, extract-none es (ground arith))

  pub extract-some :
      (es : List A) {f : A} {rest : List A}
      → extract test es ≡ some (f, rest)
      → Extracted test es f rest
  unfolding extract
  extract-some [] h = cc
  extract-some (e ∷ es) {f} {rest} h = elim (Bool-cases (test e)) [
    | inl here ↦ record {
      before = [];
      after = es;
      whole = ground arith;
      without = ground arith;
      passes = ground arith;
    }
    | inr there ↦ elim (Option-cases (extract test es)) [
      | inl no_more ↦ absurd (ground arith)
      | inr ((g, r), found) ↦
          let ih = extract-some es found in
          record {
            before = e ∷ ih.before;
            after = ih.after;
            whole = ground (arith, ih.whole);
            without = ground (arith, ih.without);
            passes = ground (arith, ih.passes);
          }
    ]
  ]

abbrev pub Unseen : Identity → List NodeInfo → Type 0
Unseen i es = All (λ e. e.identity ≢ i) es

abbrev pub DistinctNodes : List NodeInfo → Type 0
DistinctNodes [] = Unit {0}
DistinctNodes (e ∷ es) = Unseen e.identity es × DistinctNodes es

module _ {ℓ κ} {A : Type ℓ} (P : A → Type κ) where
  pub All-middle : (xs ys : List A) {a : A} → All P (xs ++ a ∷ ys) → P a × All P (xs ++ ys)
  All-middle [] ys h = h
  All-middle (x ∷ xs) ys h = let (p, q) = All-middle xs ys h.1 in (p, (h.0, q))

  pub All-push : (xs : List A) {a : A} → All P xs → P a → All P (xs ++ a ∷ [])
  All-push xs h p = All-append P xs _ h (p, tt)

-- Taking a node out leaves distinct nodes, none of which is the one taken out.
pub Distinct-middle :
    (xs ys : List NodeInfo) (a : NodeInfo)
    → DistinctNodes (xs ++ a ∷ ys)
    → Unseen a.identity (xs ++ ys) × DistinctNodes (xs ++ ys)
Distinct-middle [] ys a h = h
Distinct-middle (x ∷ xs) ys a (fresh, h) =
    let (u, d) = Distinct-middle xs ys a h in
    let (ne, v) = All-middle (λ e. e.identity ≢ x.identity) xs ys fresh in
    (((λ e. ne (sym e)), u), (v, d))

pub Distinct-push :
    (xs : List NodeInfo) (a : NodeInfo)
    → DistinctNodes xs
    → Unseen a.identity xs
    → DistinctNodes (xs ++ a ∷ [])
Distinct-push [] a d u = (tt, tt)
Distinct-push (x ∷ xs) a (v, d) (ne, u) =
    (All-push (λ e. e.identity ≢ x.identity) xs v (λ e. ne (sym e)), Distinct-push xs a d u)

pub Distinct-retain :
    (test : NodeInfo → Bool) (xs : List NodeInfo)
    → DistinctNodes xs
    → DistinctNodes (retain test xs)
Distinct-retain test [] d = tt
Distinct-retain test (x ∷ xs) (v, d) = elim (Bool-cases (test x)) [
  | inl p ↦ rw p (All-retain (λ e. e.identity ≢ x.identity) test xs v, Distinct-retain test xs d)
  | inr p ↦ rw p (Distinct-retain test xs d)
]
