-- ===== src/Dht/Storage/Rate.antt =====
-- The rate limit over a whole run: what a publisher got through in any minute.
use mars_protocol.Common.{
  append_nil, ℕ, ◌≤◌, ◌<◌, ◌≡◌, ◌≢◌, ◌↔◌, refl, ap, ◌∙◌, Bool, true, false, ◌&&◌, List, [], ◌∷◌,
  ◌++◌, length, length-append, length-retain-le, retain, retain-append, retain-retain, All_of_Elem,
  if◌then◌else◌, leb, ◌==◌, eq_iff, lookup, lookup-insert, unwrap_or, arith, Bool-cases, inl, inr,
}
use mars_protocol.Core.Identity.{Identity, identity_eq}
use mars_protocol.Dht.Storage.Limiter.{
  RateLimiter, check_and_record, in_window, rate_limit_per_minute,
}

abbrev pub entries : RateLimiter → Identity → List ℕ
entries l p = unwrap_or (lookup p l) []

-- A STORE is let through exactly if fewer than ten were recorded in the last minute, and then it is
-- recorded too; the records of every other publisher stay as they are.
pub record IsChecked (l : RateLimiter) (p : Identity) (now : ℕ) : Type 0 where
  pub allowed :
      ((check_and_record l p now).0 ≡ true)
      ↔ (length (retain (in_window now) (entries l p)) < rate_limit_per_minute)
  pub others : (q : Identity) → p ≢ q → lookup q (check_and_record l p now).1 ≡ lookup q l
  pub own :
      entries (check_and_record l p now).1 p
      ≡ retain (in_window now) (entries l p)
        ++ (if (check_and_record l p now).0 then now ∷ [] else [])

and_false : (a : Bool) → (a && false) ≡ false
and_false a = ground arith

-- A STORE is let through exactly if fewer than ten were recorded in the last minute, and then it
-- is recorded too; the records of other publishers stay as they are.
pub check_and_record-IsChecked : (l : RateLimiter) (p : Identity) (now : ℕ) → IsChecked l p now
unfolding check_and_record
check_and_record-IsChecked l p now =
    let kept = retain (in_window now) (entries l p) in
    record {
      allowed = (λ h. ground arith, λ h. ground arith);
      others = λ q ne. elim (Bool-cases (leb rate_limit_per_minute (length kept))) [
        | inl full ↦ rw full (lookup-insert p q kept l ∙ ground (arith, eq_iff p q))
        | inr room ↦ rw room (lookup-insert p q (kept ++ now ∷ []) l ∙ ground (arith, eq_iff p q))
      ];
      own = elim (Bool-cases (leb rate_limit_per_minute (length kept))) [
        | inl full ↦ rw full (ground (arith, lookup-insert p p kept l, eq_iff p p, append_nil kept))
        | inr room ↦ rw room (ground (arith, lookup-insert p p (kept ++ now ∷ []) l, eq_iff p p))
      ];
    }

-- A run of STOREs by several publishers, at times of a clock that does not go back: `h` collects the
-- times at which `p` got through.
unfoldable pub run : Identity → List (Identity × ℕ) → RateLimiter → List ℕ → List ℕ
run p [] l h = h
run p ((q, now) ∷ calls) l h =
    let (allowed, l') = check_and_record l q now in
    run p calls l' (if allowed && q == p then h ++ now ∷ [] else h)

abbrev pub Ordered : ℕ → List (Identity × ℕ) → Type 0
Ordered t [] = Unit {0}
Ordered t ((q, now) ∷ calls) = (t ≤ now) × Ordered now calls

abbrev pub last_time : ℕ → List (Identity × ℕ) → ℕ
last_time t [] = t
last_time t ((q, now) ∷ calls) = last_time now calls

-- What the limiter keeps of `p` is what happened in the last minute, seen from now or later.
record Tracks (l : RateLimiter) (p : Identity) (h : List ℕ) (t : ℕ) : Type 0 where
  pub window : (now : ℕ) → t ≤ now → retain (in_window now) (entries l p) ≡ retain (in_window now) h
  pub few : length (retain (in_window t) h) ≤ rate_limit_per_minute

window_shrinks :
    (t now : ℕ) (xs : List ℕ)
    → t ≤ now
    → retain (in_window now) (retain (in_window t) xs) ≡ retain (in_window now) xs
window_shrinks t now xs h =
    retain-retain (in_window now) (in_window t) xs (All_of_Elem _ xs (λ a m e. ground arith))

module _ (l : RateLimiter) (p : Identity) (h : List ℕ) (t now : ℕ) (later : t ≤ now)
    (k : Tracks l p h t) where
  few_later : length (retain (in_window now) h) ≤ rate_limit_per_minute
  few_later =
      rw (← window_shrinks t now h later)
        (omega (arith, k.few, length-retain-le (in_window now) (retain (in_window t) h)))

  Tracks-other : (q : Identity) → q ≢ p → Tracks (check_and_record l q now).1 p h now
  Tracks-other q ne = record {
    window =
        λ n le. rw ((check_and_record-IsChecked l q now).others p ne) (k.window n (omega arith));
    few = few_later;
  }

  abbrev kept : List ℕ
  kept = retain (in_window now) (entries l p)

  kept_window : (n : ℕ) → now ≤ n → retain (in_window n) kept ≡ retain (in_window n) h
  kept_window n le = window_shrinks now n (entries l p) le ∙ k.window n (omega arith)

  Tracks-refused :
      (check_and_record l p now).0 ≡ false → Tracks (check_and_record l p now).1 p h now
  Tracks-refused e = record {
    window = λ n le.
        rw ((check_and_record-IsChecked l p now).own, e, append_nil kept) (kept_window n le);
    few = few_later;
  }

  Tracks-allowed :
      (check_and_record l p now).0 ≡ true
      → Tracks (check_and_record l p now).1 p (h ++ now ∷ []) now
  Tracks-allowed e = record {
    window = λ n le.
        rw
          (
            (check_and_record-IsChecked l p now).own,
            e,
            retain-append (in_window n) kept (now ∷ []),
            retain-append (in_window n) h (now ∷ []),
          )
          (ap (λ xs. xs ++ retain (in_window n) (now ∷ [])) (kept_window n le));
    few = omega (
      arith,
      (check_and_record-IsChecked l p now).allowed.0 e,
      ap length (k.window now later),
      ap length (retain-append (in_window now) h (now ∷ [])),
      length-append (retain (in_window now) h) (retain (in_window now) (now ∷ [])),
      length-retain-le (in_window now) (now ∷ []),
    );
  }

  Tracks-call :
      (q : Identity)
      → Tracks
          (check_and_record l q now).1
          p
          (if (check_and_record l q now).0 && q == p then h ++ now ∷ [] else h)
          now
  Tracks-call q = elim (Bool-cases (q == p)) [
    | inr other ↦ rw (other, and_false) (Tracks-other q (λ e. cc ((eq_iff q p).1 e, other)))
    | inl same ↦
        rw ((eq_iff q p).0 same, (eq_iff p p).1 refl)
          (elim (Bool-cases (check_and_record l p now).0) [
            | inl through ↦ rw through (Tracks-allowed through)
            | inr refused ↦ rw refused (Tracks-refused refused)
          ])
  ]

run_few :
    (p : Identity) (calls : List (Identity × ℕ)) (l : RateLimiter) (h : List ℕ) (t now : ℕ)
    → Ordered t calls
    → Tracks l p h t
    → last_time t calls ≤ now
    → length (retain (in_window now) (run p calls l h)) ≤ rate_limit_per_minute
unfolding run
run_few p [] l h t now o k le = few_later l p h t now le k
run_few p ((q, s) ∷ calls) l h t now o k le =
    run_few p calls _ _ s now o.1 (Tracks-call l p h t s o.0 k q) le

-- Whatever the STOREs of all publishers, at times that do not go back, at most ten of one
-- publisher get through in the minute before any moment from the last call on.
pub run-le-limit :
    (p : Identity) (calls : List (Identity × ℕ)) (now : ℕ)
    → Ordered 0 calls
    → last_time 0 calls ≤ now
    → length (retain (in_window now) (run p calls [] [])) ≤ rate_limit_per_minute
run-le-limit p calls now o le =
    run_few p calls [] [] 0 now o
      (record { window = λ n k. unfold lookup in refl; few = omega arith }) le
