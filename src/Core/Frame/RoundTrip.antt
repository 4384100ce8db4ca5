-- ===== src/Core/Frame/RoundTrip.antt =====
-- `to_bytes` and `from_bytes` against each other.
use mars_protocol.Common.{
  ℕ, ◌+◌, ◌*◌, ◌/◌, ◌∙◌, ◌≤◌, ◌^◌, ◌%◌, ◌≡◌, refl, arith, [], ◌∷◌, ◌++◌, length, take, drop, Bytes,
  zero, suc, ok, IsU32, nat_eq,
}
use native.Mathlib.Nat.{zero-add, suc-add}
use mathlib.Core.List.{append_assoc}
use mars_protocol.Common.{take-append, length-append}
use mars_protocol.Core.Frame.{
  Frame, byte_at, u32_at, from_bytes, to_bytes, frame_magic, protocol_version,
}

-- what the Rust types say of a frame, and what `new` and `response` set
pub record IsFrame (f : Frame) : Type 0 where
  pub magic : f.magic ≡ frame_magic
  pub version : f.version ≡ protocol_version
  pub id_size : length f.msg_id ≡ 16
  pub body_fits : IsU32 (length f.body)

pub byte_at-append :
    (xs ys : Bytes) (n i : ℕ) → length xs ≡ n → byte_at (xs ++ ys) (n + i) ≡ byte_at ys i
byte_at-append [] ys n i h = rw (← h) (rw zero-add)
byte_at-append (x ∷ xs) ys zero i h = absurd (omega arith)
byte_at-append (x ∷ xs) ys (suc n) i h = rw suc-add (byte_at-append xs ys n i (omega arith))

pub drop-append_add :
    (xs ys : Bytes) (n i : ℕ) → length xs ≡ n → drop (n + i) (xs ++ ys) ≡ drop i ys
drop-append_add [] ys n i h = rw (← h) (rw zero-add)
drop-append_add (x ∷ xs) ys zero i h = absurd (omega arith)
drop-append_add (x ∷ xs) ys (suc n) i h = rw suc-add (drop-append_add xs ys n i (omega arith))

pub take-append_eq : (xs ys : Bytes) (n : ℕ) → length xs ≡ n → take n (xs ++ ys) ≡ xs
take-append_eq xs ys n h = rw (← h) (take-append xs ys)

u32_digits :
    (n : ℕ)
    → IsU32 n
    → n / 16777216 % 256 * 16777216 + n / 65536 % 256 * 65536 + n / 256 % 256 * 256 + n % 256 ≡ n
u32_digits n h = omega arith

-- a frame on the wire, with bytes behind it
abbrev pub wire : ℕ → Bytes → ℕ → Bytes → Bytes
wire t m n tail =
    0x4d
    ∷ 0x48
    ∷ 0x01
    ∷ t
    ∷ (m ++ (n / 16777216 % 256) ∷ (n / 65536 % 256) ∷ (n / 256 % 256) ∷ (n % 256) ∷ tail)

module _ (t : ℕ) (m body rest : Bytes) (size : length m ≡ 16) (fits : IsU32 (length body)) where
  abbrev input : Bytes
  input = wire t m (length body) (body ++ rest)

  abbrev trailer : Bytes
  trailer =
      (length body / 16777216 % 256)
      ∷ (length body / 65536 % 256)
      ∷ (length body / 256 % 256)
      ∷ (length body % 256)
      ∷ (body ++ rest)

  length-input : length input ≡ 24 + length body + length rest
  length-input = omega (arith, length-append m trailer, length-append body rest)

  body_len-input : u32_at input 20 ≡ length body
  body_len-input = omega (
    arith,
    byte_at-append m trailer 16 0 size,
    byte_at-append m trailer 16 1 size,
    byte_at-append m trailer 16 2 size,
    byte_at-append m trailer 16 3 size,
    u32_digits (length body) fits,
  )

  msg_id-input : take 16 (drop 4 input) ≡ m
  msg_id-input = take-append_eq m trailer 16 size

  body-input : take (length body) (drop 24 input) ≡ body
  body-input = rw (drop-append_add m trailer 16 4 size) (take-append body rest)

  from_bytes-wire :
      from_bytes input
      ≡ ok (record {
        magic = frame_magic;
        version = protocol_version;
        msg_type = t;
        msg_id = m;
        body = body;
      })
  unfolding from_bytes
  from_bytes-wire = ground (arith, length-input, body_len-input, msg_id-input, body-input)

pub to_bytes-wire :
    (f : Frame) (rest : Bytes)
    → IsFrame f
    → to_bytes f ++ rest ≡ wire f.msg_type f.msg_id (length f.body) (f.body ++ rest)
unfolding to_bytes
to_bytes-wire f rest h =
    let size : length f.body % 2 ^ 32 ≡ length f.body = omega (arith, h.body_fits) in
    rw (h.magic, h.version, size) (simp append_assoc)

-- Decoding an encoded frame gives the frame back, whatever bytes follow it, if its magic number,
-- version and id size are those that the constructors set and its body is shorter than 2^32 bytes.
pub from_bytes-to_bytes :
    (f : Frame) (rest : Bytes) → IsFrame f → from_bytes (to_bytes f ++ rest) ≡ ok f
from_bytes-to_bytes f rest h =
    rw (to_bytes-wire f rest h)
      (from_bytes-wire f.msg_type f.msg_id f.body rest h.id_size h.body_fits ∙ ground arith)

-- the first four elements of a list that has them
pub split_four : (d : Bytes) → 4 ≤ length d → (a b c e : ℕ) × (r : Bytes) × (d ≡ a ∷ b ∷ c ∷ e ∷ r)
split_four (a ∷ b ∷ c ∷ e ∷ r) h = (a, b, c, e, r, refl)
split_four [] h = absurd (omega arith)
split_four (a ∷ []) h = absurd (omega arith)
split_four (a ∷ b ∷ []) h = absurd (omega arith)
split_four (a ∷ b ∷ c ∷ []) h = absurd (omega arith)
