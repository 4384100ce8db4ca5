-- ===== src/Hub/RateLimit/Cleanup.antt =====
-- `cleanup` of mesh-hub/src/rate_limit.rs frees memory and forgives nobody.
use mars_protocol.Common.{
  ℕ, ◌≤◌, ◌≡◌, refl, sym, not, List, [], ◌∷◌, is_empty, retain, retain-retain, All_of_Elem,
  AllEntries, AllEntries-lookup, if◌then◌else◌, Eq, nat_eq, list_eq, arith, HashMap, lookup,
  unwrap_or, Distinct, map_values, retain_values, lookup-map_values, lookup-retain_values,
  map_values-Distinct, Option-cases, inl, inr, Bytes, some, none,
}
use mars_protocol.Hub.RateLimit.{
  Operation, operation_eq, Windows, OpWindows, pop_old, window_of, cleanup_windows,
}
use mars_protocol.Hub.RateLimit.Window.{within, Ascending, pop_old-retain}

module _ {A : Type 0} where
  present : (xs : List A) → unwrap_or (if not (is_empty xs) then some xs else none) [] ≡ xs
  present [] = refl
  present (x ∷ xs) = refl

  -- What is found behind a pass that rewrites the lists and drops the empty ones.
  compacted_at :
      {K : Type 0} ⦃e : Eq K⦄ (f : List A → List A) (m : HashMap K (List A)) (k : K)
      → f [] ≡ []
      → Distinct m
      → unwrap_or (lookup k (retain_values (λ v. not (is_empty v)) (map_values f m))) []
        ≡ f (unwrap_or (lookup k m) [])
  compacted_at f m k none_left d =
      let after =
        lookup-retain_values (λ v. not (is_empty v)) k (map_values f m)
          (map_values-Distinct f m d) in
      elim (Option-cases (lookup k m)) [
        | inl gone ↦ rw (after, lookup-map_values f k m, gone) (sym none_left)
        | inr (v, here) ↦ rw (after, lookup-map_values f k m, here) (present (f v))
      ]

-- no key twice, on both levels
pub record WindowsDistinct (windows : Windows) : Type 0 where
  pub keys : Distinct windows
  pub operations : AllEntries (λ key ops. Distinct ops) windows

-- A cleanup pass with a cutoff of at least the window does not change what any later check counts,
-- for each key and operation whose times are in order and not after the pass.
pub cleanup_windows-forgets_nothing :
    (windows : Windows) (key : Bytes) (op : Operation) (cutoff span now later : ℕ)
    → WindowsDistinct windows
    → Ascending (window_of windows key op) now
    → span ≤ cutoff
    → now ≤ later
    → retain (within span later) (window_of (cleanup_windows cutoff now windows) key op)
      ≡ retain (within span later) (window_of windows key op)
unfolding cleanup_windows
cleanup_windows-forgets_nothing windows key op cutoff span now later d order le after =
    let ops = unwrap_or (lookup key windows) [] in
    let clean = λ (m : OpWindows).
      retain_values (λ deque. not (is_empty deque)) (map_values (pop_old cutoff now) m) in
    let outer = compacted_at clean windows key (unfold map_values retain_values in refl) d.keys in
    let inner =
      compacted_at (pop_old cutoff now) ops op (unfold pop_old in refl)
        (ops_distinct windows key d) in
    rw (outer, inner, pop_old-retain cutoff now (window_of windows key op) order)
      (retain-retain (within span later) (within cutoff now) (window_of windows key op)
        (All_of_Elem _ _ (λ t m e. ground arith)))
  where
    ops_distinct :
        (windows : Windows) (key : Bytes)
        → WindowsDistinct windows
        → Distinct (unwrap_or (lookup key windows) [])
    ops_distinct windows key d = elim (Option-cases (lookup key windows)) [
      | inl gone ↦ rw gone tt
      | inr (m, here) ↦
          rw here (AllEntries-lookup (λ k ops. Distinct ops) key windows d.operations here)
    ]
