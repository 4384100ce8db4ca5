-- ===== src/Core/Frame.antt =====
-- mesh-core/src/frame.rs: the binary envelope around a message, a header of 24 bytes and a body.
-- A `usize` has 64 bits, so `24 + body_len` does not wrap.
pub mod RoundTrip
pub mod Decode
use mars_protocol.Common.{
  ℕ, ◌+◌, ◌*◌, ◌/◌, ◌%◌, ◌^◌, Bool, true, not, ◌||◌, List, [], ◌∷◌, ◌++◌, length, take, drop, Bytes,
  nat_eq, ◌==◌, ltb, leb, Result, ok, err, ◌>>=◌, ◌>>◌, reject_if, zero, suc, ◌-◌,
}
use mars_protocol.Core.Error
use mars_protocol.Core.Error.{
  MeshError, frame_body, frame_too_short, body_truncated, invalid_magic, unsupported_version,
}

abbrev pub frame_magic : ℕ
frame_magic = 0x4d48

abbrev pub protocol_version : ℕ
protocol_version = 0x01

abbrev pub msg_ping : ℕ
msg_ping = 0x01

abbrev pub msg_pong : ℕ
msg_pong = 0x81

abbrev pub msg_store : ℕ
msg_store = 0x02

abbrev pub msg_store_ack : ℕ
msg_store_ack = 0x82

abbrev pub msg_find_node : ℕ
msg_find_node = 0x03

abbrev pub msg_find_node_result : ℕ
msg_find_node_result = 0x83

abbrev pub msg_find_value : ℕ
msg_find_value = 0x04

abbrev pub msg_find_value_result : ℕ
msg_find_value_result = 0x84

pub record Frame : Type 0 where
  pub magic : ℕ
  pub version : ℕ
  pub msg_type : ℕ
  pub msg_id : Bytes
  pub body : Bytes

-- `Frame::new`; the random id is an argument
unfoldable pub new : Bytes → ℕ → Bytes → Frame
new random_id msg_type body = record {
  magic = frame_magic;
  version = protocol_version;
  msg_type = msg_type;
  msg_id = random_id;
  body = body;
}

unfoldable pub response : Frame → ℕ → Bytes → Frame
response request msg_type body = record {
  magic = frame_magic;
  version = protocol_version;
  msg_type = msg_type;
  msg_id = request.msg_id;
  body = body;
}

-- `msg_type & 0x80 != 0`: bit 7 of a byte
unfoldable pub is_response : Frame → Bool
is_response f = not (f.msg_type / 128 % 2 == 0)

-- `u16::to_be_bytes` and `u32::to_be_bytes`
unfoldable pub be_bytes_u16 : ℕ → Bytes
be_bytes_u16 n = (n / 256 % 256) ∷ (n % 256) ∷ []

unfoldable pub be_bytes_u32 : ℕ → Bytes
be_bytes_u32 n = (n / 16777216 % 256) ∷ (n / 65536 % 256) ∷ (n / 256 % 256) ∷ (n % 256) ∷ []

-- the cast `body.len() as u32` keeps the low 32 bits
unfoldable pub to_bytes : Frame → Bytes
unfolding be_bytes_u16 be_bytes_u32
to_bytes f =
    be_bytes_u16 f.magic
    ++ (f.version ∷ f.msg_type ∷ f.msg_id)
    ++ be_bytes_u32 (length f.body % 2 ^ 32)
    ++ f.body

-- `data[i]`, read below the length that was checked
abbrev pub byte_at : Bytes → ℕ → ℕ
byte_at [] i = 0
byte_at (b ∷ bs) zero = b
byte_at (b ∷ bs) (suc i) = byte_at bs i

-- `u16::from_be_bytes` and `u32::from_be_bytes` at an offset
abbrev pub u16_at : Bytes → ℕ → ℕ
u16_at d i = byte_at d i * 256 + byte_at d (suc i)

abbrev pub u32_at : Bytes → ℕ → ℕ
u32_at d i =
    byte_at d i * 16777216 + byte_at d (i + 1) * 65536 + byte_at d (i + 2) * 256 + byte_at d (i + 3)

unfoldable pub from_bytes : Bytes → Error.Result Frame
from_bytes d = do
  reject_if (ltb (length d) 24) (frame_body (frame_too_short (length d)))
  let magic = u16_at d 0
  reject_if (not (magic == frame_magic)) (invalid_magic magic)
  let version = byte_at d 2
  reject_if (not (version == protocol_version)) (unsupported_version version)
  let body_len = u32_at d 20
  reject_if (ltb (length d) (24 + body_len)) (frame_body (body_truncated body_len (length d - 24)))
  ok (record {
    magic = magic;
    version = version;
    msg_type = byte_at d 3;
    msg_id = take 16 (drop 4 d);
    body = take body_len (drop 24 d);
  })
