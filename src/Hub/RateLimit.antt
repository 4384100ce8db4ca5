-- ===== src/Hub/RateLimit.antt =====
-- mesh-hub/src/rate_limit.rs: sliding windows per IP address and per identity. An `Instant` is the
-- nanoseconds since the start of the process; the methods that read the clock take the reading as an
-- argument. Each method holds its lock over the whole update, so it is one step on the map.
pub mod Window
pub mod Cleanup
use mars_protocol.Common.{
  ℕ, ◌*◌, ◌%◌, ◌^◌, ◌≡◌, ◌↔◌, refl, Bool, true, false, not, ◌&&◌, Option, none, some, List, [], ◌∷◌,
  ◌++◌, length, is_empty, if◌then◌else◌, ltb, leb, Eq, nat_eq, list_eq, ◌==◌, eq_iff, arith,
  HashMap, lookup, insert, unwrap_or, map_values, retain_values, saturating_sub, Result, ok, err,
  ◌>>=◌, Bytes, Text,
}
use mars_protocol.Core.External.{External}
use mars_protocol.Core.Identity.{Identity, did}

pub data Operation : Type 0 where
  connect : Operation
  store : Operation
  query : Operation

unfoldable pub operation_beq : Operation → Operation → Bool
operation_beq connect connect = true
operation_beq store store = true
operation_beq query query = true
operation_beq _ _ = false

pub operation_beq_iff : (a b : Operation) → (operation_beq a b ≡ true) ↔ (a ≡ b)
unfolding operation_beq
operation_beq_iff connect connect = (λ e. refl, λ e. refl)
operation_beq_iff store store = (λ e. refl, λ e. refl)
operation_beq_iff query query = (λ e. refl, λ e. refl)
operation_beq_iff connect store = ground arith
operation_beq_iff connect query = ground arith
operation_beq_iff store connect = ground arith
operation_beq_iff store query = ground arith
operation_beq_iff query connect = ground arith
operation_beq_iff query store = ground arith

instance abbrev pub operation_eq : Eq Operation
operation_eq = record { beq = operation_beq; beq_iff = operation_beq_iff }

-- `std::net::IpAddr`: the bytes of an address, 4 or 16 of them
abbrev pub IpAddr : Type 0
IpAddr = Bytes

pub record RateLimitConfig : Type 0 where
  pub ip_limits : HashMap Operation ℕ
  pub identity_limits : HashMap Operation ℕ
  pub window_secs : ℕ

-- `RateLimitConfig::default`
abbrev pub default_limits : RateLimitConfig
default_limits = record {
  ip_limits = (connect, 60) ∷ (store, 30) ∷ (query, 300) ∷ [];
  identity_limits = (store, 20) ∷ (query, 200) ∷ [];
  window_secs = 60;
}

pub data RateLimitError : Type 0 where
  ip_rate_limited : IpAddr → Operation → ℕ → RateLimitError
  identity_rate_limited : Text → Operation → ℕ → RateLimitError

pub record RateLimitStats : Type 0 where
  pub tracked_ips : ℕ
  pub tracked_identities : ℕ

abbrev pub OpWindows : Type 0
OpWindows = HashMap Operation (List ℕ)

-- the two maps have one type: an address and an identity are bytes
abbrev pub Windows : Type 0
Windows = HashMap Bytes OpWindows

pub record HubRateLimiter : Type 0 where
  pub config : RateLimitConfig
  pub ip_windows : Windows
  pub identity_windows : Windows

-- `HubRateLimiter::new`
unfoldable pub new : RateLimitConfig → HubRateLimiter
new config = record { config = config; ip_windows = []; identity_windows = [] }

-- `Duration::from_secs`, in nanoseconds
abbrev pub from_secs : ℕ → ℕ
from_secs s = s * 1000000000

-- `while let Some(&front) = deque.front()`: the loop that drops what is older than `span`
unfoldable pub pop_old : ℕ → ℕ → List ℕ → List ℕ
pop_old span now [] = []
pop_old span now (front ∷ deque) =
    let rest = pop_old span now deque in
    if ltb span (saturating_sub now front) then rest else front ∷ deque

-- the entries of a key and an operation
abbrev pub window_of : Windows → Bytes → Operation → List ℕ
window_of windows key op = unwrap_or (lookup op (unwrap_or (lookup key windows) [])) []

-- the body that `check_ip` and `check_identity` share, on the map that is locked
unfoldable pub check_window : Windows → Bytes → Operation → ℕ → ℕ → ℕ → Bool × Windows
unfolding pop_old
check_window windows key op limit span now =
    let op_windows = unwrap_or (lookup key windows) [] in
    let deque = pop_old span now (unwrap_or (lookup op op_windows) []) in
    if leb limit (length deque % 2 ^ 32)
    then (false, insert key (insert op deque op_windows) windows)
    else (true, insert key (insert op (deque ++ now ∷ []) op_windows) windows)

unfoldable pub check_ip :
    HubRateLimiter → IpAddr → Operation → ℕ → Result RateLimitError (Unit {0}) × HubRateLimiter
unfolding check_window
check_ip l ip op now = elim (lookup op l.config.ip_limits) [
  | none ↦ (ok tt, l)
  | some limit ↦
      let (allowed, windows) =
        check_window l.ip_windows ip op limit (from_secs l.config.window_secs) now in
      (
        if allowed then ok tt else err (ip_rate_limited ip op limit),
        record l { ip_windows = windows },
      )
]

-- `identity_bytes` of mesh-hub/src/storage/redb.rs
abbrev pub identity_bytes : Identity → Bytes
identity_bytes i = i.algorithm ∷ i.public_key

module _ (x : External) where
  unfoldable pub check_identity :
      HubRateLimiter → Identity → Operation → ℕ → Result RateLimitError (Unit {0}) × HubRateLimiter
  unfolding check_window
  check_identity l identity op now = elim (lookup op l.config.identity_limits) [
    | none ↦ (ok tt, l)
    | some limit ↦
        let (allowed, windows) =
          check_window l.identity_windows (identity_bytes identity) op limit
            (from_secs l.config.window_secs) now in
        (
          if allowed then ok tt else err (identity_rate_limited (did x identity) op limit),
          record l { identity_windows = windows },
        )
  ]

  -- `?` between the two checks, each with its own reading of the clock
  unfoldable pub check :
      HubRateLimiter
      → IpAddr
      → Identity
      → Operation
      → ℕ
      → ℕ
      → Result RateLimitError (Unit {0}) × HubRateLimiter
  unfolding check_ip check_identity
  check l ip identity op now later =
      let (r, l') = check_ip l ip op now in
      let second = check_identity l' identity op later in
      elim r [ ok _ ↦ second | err e ↦ (err e, l') ]

-- one pass of `cleanup` over a map
unfoldable pub cleanup_windows : ℕ → ℕ → Windows → Windows
unfolding pop_old
cleanup_windows cutoff now windows =
    retain_values (λ op_map. not (is_empty op_map))
      (map_values
        (λ op_map.
          retain_values (λ deque. not (is_empty deque)) (map_values (pop_old cutoff now) op_map))
        windows)

-- `window_secs * 2` is a product on `u64`
unfoldable pub cleanup : HubRateLimiter → ℕ → HubRateLimiter
unfolding cleanup_windows
cleanup l now =
    let cutoff = from_secs (l.config.window_secs * 2 % 2 ^ 64) in
    record l {
      ip_windows = cleanup_windows cutoff now l.ip_windows;
      identity_windows = cleanup_windows cutoff now l.identity_windows;
    }

unfoldable pub stats : HubRateLimiter → RateLimitStats
stats l = record {
  tracked_ips = length l.ip_windows;
  tracked_identities = length l.identity_windows;
}
