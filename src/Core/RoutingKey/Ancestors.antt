-- ===== src/Core/RoutingKey/Ancestors.antt =====
-- Which keys `hierarchical_routing_keys` of mesh-core/src/routing.rs makes of a path.
use mars_protocol.Common.{
  append_nil, ℕ, zero, suc, ◌+◌, ◌≤◌, ◌<◌, ◌≡◌, ◌≢◌, refl, sym, ap, ◌∙◌, some, List, [], ◌∷◌, ◌++◌,
  length, take, drop, get_elem?, arith, Text, nat_eq, ◌==◌, eq_iff, take_of_length-le, Bool-cases,
  inl, inr,
}
use mars_protocol.Core.External.{External}
use mars_protocol.Core.RoutingKey.{
  split_from, split, join, routing_key, keys_from, hierarchical_routing_keys,
}

split_from_some : (cur s : Text) → length (split_from cur s) ≢ 0
unfolding split_from
split_from_some cur [] e = absurd cc
split_from_some cur (c ∷ s) e =
    ground (arith, split_from_some [] s, split_from_some (cur ++ c ∷ []) s)

append_assoc : (xs ys zs : Text) → (xs ++ ys) ++ zs ≡ xs ++ (ys ++ zs)
append_assoc [] ys zs = refl
append_assoc (x ∷ xs) ys zs = ap (◌∷◌ x) (append_assoc xs ys zs)

join_cons : (p : Text) (ps : List Text) → length ps ≢ 0 → join (p ∷ ps) ≡ p ++ b'/' ∷ join ps
unfolding join
join_cons p [] h = absurd (h refl)
join_cons p (q ∷ ps) h = refl

join-split_from : (cur s : Text) → join (split_from cur s) ≡ cur ++ s
unfolding split_from
join-split_from cur [] = unfold join in sym (append_nil cur)
join-split_from cur (c ∷ s) = elim (Bool-cases (c == b'/')) [
  | inl slash ↦
      rw (slash, join_cons cur (split_from [] s) (split_from_some [] s), join-split_from [] s)
        (ap (λ b. cur ++ b ∷ s) (sym ((eq_iff c b'/').0 slash)))
  | inr letter ↦ rw (letter, join-split_from (cur ++ c ∷ []) s) (append_assoc cur (c ∷ []) s)
]

join-split : (s : Text) → join (split s) ≡ s
unfolding split
join-split s = join-split_from [] s

-- Behind the first parts, a separator and the other parts complete the text.
join_prefix :
    (n : ℕ) (ps : List Text)
    → n < length ps
    → 1 ≤ n
    → join (take n ps) ++ b'/' ∷ join (drop n ps) ≡ join ps
unfolding join
join_prefix n [] h k = absurd (omega arith)
join_prefix zero (p ∷ ps) h k = absurd (omega arith)
join_prefix (suc zero) (p ∷ ps) h k = sym (join_cons p ps (λ e. omega (arith, e)))
join_prefix (suc (suc n)) (p ∷ []) h k = absurd (omega arith)
join_prefix (suc (suc n)) (p ∷ q ∷ ps) h k =
    let rest = join_prefix (suc n) (q ∷ ps) (omega arith) (omega arith) in
    append_assoc p (b'/' ∷ join (q ∷ take n ps)) (b'/' ∷ join (drop n ps))
    ∙ ap (λ t. p ++ b'/' ∷ t) rest

module _ (x : External) where
  length-keys_from : (ps : List Text) (i n : ℕ) → length (keys_from x ps i n) ≡ n
  unfolding keys_from
  length-keys_from ps i zero = refl
  length-keys_from ps i (suc n) = ap suc (length-keys_from ps (suc i) n)

  get_elem?-keys_from :
      (ps : List Text) (i n j : ℕ)
      → j < n
      → get_elem? (keys_from x ps i n) j ≡ some (routing_key x (join (take (suc (i + j)) ps)))
  unfolding keys_from
  get_elem?-keys_from ps i zero j h = absurd (omega arith)
  get_elem?-keys_from ps i (suc n) zero h =
      ap (λ k. some (routing_key x (join (take (suc k) ps)))) (omega arith)
  get_elem?-keys_from ps i (suc n) (suc j) h =
      get_elem?-keys_from ps (suc i) n j (omega arith)
      ∙ ap (λ k. some (routing_key x (join (take (suc k) ps)))) (omega arith)

  -- A path of n segments has n keys; key number i is the routing key of the first i + 1 segments
  -- with the separators between them, which is the path itself for the last one and before that is
  -- followed by a separator in the path.
  pub hierarchical_routing_keys_lem :
      (path : Text)
      → (length (hierarchical_routing_keys x path) ≡ length (split path))
        × ((i : ℕ)
            → i < length (split path)
            → get_elem? (hierarchical_routing_keys x path) i
              ≡ some (routing_key x (join (take (suc i) (split path)))))
        × (join (take (length (split path)) (split path)) ≡ path)
        × ((i : ℕ)
            → suc i < length (split path)
            → join (take (suc i) (split path)) ++ b'/' ∷ join (drop (suc i) (split path)) ≡ path)
  unfolding hierarchical_routing_keys
  hierarchical_routing_keys_lem path = (
    length-keys_from (split path) 0 _,
    (λ i h.
        get_elem?-keys_from (split path) 0 _ i h
        ∙ ap (λ k. some (routing_key x (join (take (suc k) (split path))))) (omega arith)),
    ap join (take_of_length-le _ (split path) (omega arith)) ∙ join-split path,
    λ i h. join_prefix (suc i) (split path) h (omega arith) ∙ join-split path,
  )
