-- ===== src/Common/Words.antt =====
-- Machine words: a value is a number below the modulus, and a sum wraps around.
use Prim.Native.Nat.{ℕ, ◌+◌, ◌-◌, ◌%◌, ◌^◌, ◌<◌}

abbrev pub IsByte : ℕ → Type 0
IsByte b = b < 256

abbrev pub IsU16 : ℕ → Type 0
IsU16 n = n < 2 ^ 16

abbrev pub IsU32 : ℕ → Type 0
IsU32 n = n < 2 ^ 32

abbrev pub IsU64 : ℕ → Type 0
IsU64 n = n < 2 ^ 64

-- `a + b` on `u64`, as a release build computes it.
abbrev pub add_u64 : ℕ → ℕ → ℕ
add_u64 a b = (a + b) % 2 ^ 64

-- `a + b` on `u32`, so too.
abbrev pub add_u32 : ℕ → ℕ → ℕ
add_u32 a b = (a + b) % 2 ^ 32

-- `u64::saturating_sub`
abbrev pub saturating_sub : ℕ → ℕ → ℕ
saturating_sub a b = a - b

-- A clock reading of at most 2 ^ 63 microseconds since 1970, which the year 294,000 ends.
abbrev pub IsClock : ℕ → Type 0
IsClock now = now < 2 ^ 63
