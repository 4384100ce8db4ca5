-- ===== src/Hub/RateLimit/Window.antt =====
-- One check of the sliding windows of mesh-hub/src/rate_limit.rs.
use mars_protocol.Common.{
  append_nil, ℕ, ◌^◌, ◌%◌, ◌≤◌, ◌<◌, ◌≡◌, ◌≢◌, ◌↔◌, ◌⊎◌, inl, inr, refl, sym, ap, ◌∙◌, Bool, true,
  false, not, List, [], ◌∷◌, ◌++◌, length, length-append, length-retain-le, retain, All, All-append,
  All-map, All-retain, IsU32, if◌then◌else◌, ltb, leb, nat_eq, list_eq, ◌==◌, eq_iff, arith,
  Bool-cases, lookup, insert, lookup-insert, lookup-insert_self, unwrap_or, saturating_sub, Bytes,
}
use mars_protocol.Hub.RateLimit.{Operation, operation_eq, Windows, pop_old, window_of, check_window}

-- not older than the window
abbrev pub within : ℕ → ℕ → ℕ → Bool
within span now t = not (ltb span (saturating_sub now t))

-- times in order, none behind `t`
abbrev pub Ascending : List ℕ → ℕ → Type 0
Ascending [] t = Unit {0}
Ascending (a ∷ as_) t = (a ≤ t) × All (λ b. a ≤ b) as_ × Ascending as_ t

retain_whole : (p : ℕ → Bool) (xs : List ℕ) → All (λ a. p a ≡ true) xs → retain p xs ≡ xs
retain_whole p [] h = refl
retain_whole p (x ∷ xs) h = rw h.0 (ap (◌∷◌ x) (retain_whole p xs h.1))

-- In order of time, what the loop drops from the front is all that is too old.
pub pop_old-retain :
    (span now : ℕ) (xs : List ℕ)
    → Ascending xs now
    → pop_old span now xs ≡ retain (within span now) xs
unfolding pop_old
pop_old-retain span now [] h = refl
pop_old-retain span now (a ∷ xs) h = elim (Bool-cases (ltb span (saturating_sub now a))) [
  | inl old ↦ rw old (pop_old-retain span now xs h.2)
  | inr recent ↦
      rw
        (
          recent,
          retain_whole (within span now) xs (All-map (λ b. a ≤ b) xs (λ b le. ground arith) h.1),
        )
        refl
]

Ascending-later : (xs : List ℕ) (t u : ℕ) → t ≤ u → Ascending xs t → Ascending xs u
Ascending-later [] t u le h = tt
Ascending-later (a ∷ xs) t u le h = (omega (arith, h.0), h.1, Ascending-later xs t u le h.2)

Ascending-retain : (p : ℕ → Bool) (xs : List ℕ) (t : ℕ) → Ascending xs t → Ascending (retain p xs) t
Ascending-retain p [] t h = tt
Ascending-retain p (a ∷ xs) t h = elim (Bool-cases (p a)) [
  | inl kept ↦ rw kept (h.0, All-retain (λ b. a ≤ b) p xs h.1, Ascending-retain p xs t h.2)
  | inr dropped ↦ rw dropped (Ascending-retain p xs t h.2)
]

Ascending-push : (xs : List ℕ) (t : ℕ) → Ascending xs t → Ascending (xs ++ t ∷ []) t
Ascending-push [] t h = (omega arith, tt, tt)
Ascending-push (a ∷ xs) t h =
    (h.0, All-append (λ b. a ≤ b) xs (t ∷ []) h.1 (h.0, tt), Ascending-push xs t h.2)

window_of-insert :
    (windows : Windows) (key : Bytes) (op : Operation) (v : List ℕ)
    → window_of (insert key (insert op v (unwrap_or (lookup key windows) [])) windows) key op ≡ v
window_of-insert windows key op v =
    rw
      (
        lookup-insert_self key (insert op v (unwrap_or (lookup key windows) [])) windows,
        lookup-insert_self op v (unwrap_or (lookup key windows) []),
      )
      refl

window_of-insert_other :
    (windows : Windows) (key key' : Bytes) (op op' : Operation) (v : List ℕ)
    → (key ≢ key') ⊎ (op ≢ op')
    → window_of (insert key (insert op v (unwrap_or (lookup key windows) [])) windows) key' op'
      ≡ window_of windows key' op'
window_of-insert_other windows key key' op op' v ne =
    let ops = unwrap_or (lookup key windows) [] in
    elim (Bool-cases (key == key')) [
      | inr other ↦ rw (lookup-insert key key' (insert op v ops) windows, other) refl
      | inl same ↦
          let e = (eq_iff key key').0 same in
          let apart : (op == op') ≡ false = elim (Bool-cases (op == op')) [
            | inr differ ↦ differ
            | inl equal ↦ elim ne [
              | inl keys ↦ absurd (keys e)
              | inr ops_differ ↦ absurd (ops_differ ((eq_iff op op').0 equal))
            ]
          ] in
          rw
            (
              lookup-insert key key' (insert op v ops) windows,
              same,
              lookup-insert op op' v ops,
              apart,
            )
            (ap (λ k. window_of windows k op') e)
    ]

module _ (windows : Windows) (key : Bytes) (op : Operation) (limit span now : ℕ) where
  abbrev pub recent : List ℕ
  recent = retain (within span now) (window_of windows key op)

  -- what a check decides and leaves
  pub record IsWindowChecked (r : Bool × Windows) : Type 0 where
    pub allowed : (r.0 ≡ true) ↔ (length recent < limit)
    pub own : window_of r.1 key op ≡ recent ++ (if r.0 then now ∷ [] else [])
    pub others :
        (key' : Bytes) (op' : Operation)
        → (key ≢ key') ⊎ (op ≢ op')
        → window_of r.1 key' op' ≡ window_of windows key' op'
    pub ascending : Ascending (window_of r.1 key op) now
    pub few : length (window_of r.1 key op) ≤ limit

  -- A check on times in order, none after now and no more than the limit of 32 bits, allows the
  -- call exactly if fewer calls than the limit are left in the window, records an allowed call and
  -- drops what has left the window; the window stays in order and within the limit, and other keys
  -- and operations keep theirs.
  pub check_window-IsWindowChecked :
      Ascending (window_of windows key op) now
      → length (window_of windows key op) ≤ limit
      → IsU32 limit
      → IsWindowChecked (check_window windows key op limit span now)
  unfolding check_window
  check_window-IsWindowChecked order few word =
      let deque = pop_old span now (window_of windows key op) in
      let same : deque ≡ recent = pop_old-retain span now (window_of windows key op) order in
      let size : length recent % 2 ^ 32 ≡ length recent =
        omega (arith, length-retain-le (within span now) (window_of windows key op)) in
      let kept = Ascending-retain (within span now) (window_of windows key op) now order in
      rw same (elim (Bool-cases (leb limit (length recent % 2 ^ 32))) [
        | inl full ↦ rw full (record {
          allowed = (λ e. absurd cc, λ lt. absurd (ground (arith, size)));
          own = window_of-insert windows key op recent ∙ sym (append_nil recent);
          others = λ key' op' ne. window_of-insert_other windows key key' op op' recent ne;
          ascending = rw (window_of-insert windows key op recent) kept;
          few =
              rw (window_of-insert windows key op recent)
                (omega (arith, length-retain-le (within span now) (window_of windows key op)));
        })
        | inr room ↦ rw room (record {
          allowed = (λ e. ground (arith, size), λ lt. refl);
          own = window_of-insert windows key op (recent ++ now ∷ []);
          others =
              λ key' op' ne. window_of-insert_other windows key key' op op' (recent ++ now ∷ []) ne;
          ascending =
              rw (window_of-insert windows key op (recent ++ now ∷ []))
                (Ascending-push recent now kept);
          few =
              rw (window_of-insert windows key op (recent ++ now ∷ []))
                (ground (arith, size, length-append recent (now ∷ [])));
        })
      ])
