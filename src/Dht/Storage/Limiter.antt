-- ===== src/Dht/Storage/Limiter.antt =====
-- The rate limit of mesh-dht/src/storage.rs: ten STOREs of a publisher in any minute.
use mars_protocol.Common.{
  ℕ, Bool, true, false, List, [], ◌∷◌, ◌++◌, length, retain, if◌then◌else◌, ltb, leb, HashMap,
  lookup, insert, unwrap_or, saturating_sub,
}
use mars_protocol.Core.Identity.{Identity, identity_eq}

abbrev pub rate_limit_per_minute : ℕ
rate_limit_per_minute = 10

abbrev pub rate_limit_window_micros : ℕ
rate_limit_window_micros = 60000000

-- the timestamps of each publisher
abbrev pub RateLimiter : Type 0
RateLimiter = HashMap Identity (List ℕ)

abbrev pub in_window : ℕ → ℕ → Bool
in_window now ts = ltb (saturating_sub now ts) rate_limit_window_micros

unfoldable pub check_and_record : RateLimiter → Identity → ℕ → Bool × RateLimiter
check_and_record timestamps publisher now_micros =
    let entries = retain (in_window now_micros) (unwrap_or (lookup publisher timestamps) []) in
    if leb rate_limit_per_minute (length entries)
    then (false, insert publisher entries timestamps)
    else (true, insert publisher (entries ++ now_micros ∷ []) timestamps)
