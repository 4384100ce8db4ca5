-- ===== src/Core/Frame/Decode.antt =====
-- What `from_bytes` accepts: the bytes of a frame, and nothing else.
use mars_protocol.Common.{
  ℕ, ◌+◌, ◌*◌, ◌/◌, ◌%◌, ◌≤◌, ◌≡◌, refl, sym, ap, subst, ◌∙◌, arith, ◌∷◌, ◌++◌, length, take, drop,
  Bytes, ok, IsByte, All, All-drop, length-append, length-take, take-append-drop,
}
use mars_protocol.Core.Frame.{
  Frame, byte_at, u16_at, u32_at, from_bytes, to_bytes, frame_magic, protocol_version,
}
use mars_protocol.Core.Frame.RoundTrip.{
  IsFrame, wire, byte_at-append, drop-append_add, take-append_eq, split_four, to_bytes-wire,
}

-- What a successful decode says of the input and of the frame.
pub record IsDecoded (d : Bytes) (f : Frame) : Type 0 where
  pub frame : IsFrame f
  pub rest : Bytes
  pub input : d ≡ to_bytes f ++ rest

-- the tests that a successful decode has passed
record Passed (d : Bytes) (f : Frame) : Type 0 where
  pub magic : u16_at d 0 ≡ frame_magic
  pub version : byte_at d 2 ≡ protocol_version
  pub enough : 24 + u32_at d 20 ≤ length d
  pub frame : f ≡ record {
    magic = frame_magic;
    version = protocol_version;
    msg_type = byte_at d 3;
    msg_id = take 16 (drop 4 d);
    body = take (u32_at d 20) (drop 24 d);
  }

from_bytes-Passed : (d : Bytes) (f : Frame) → from_bytes d ≡ ok f → Passed d f
unfolding from_bytes
from_bytes-Passed d f h = record {
  magic = ground arith;
  version = ground arith;
  enough = ground arith;
  frame = ground arith;
}

module _ (a b c t x y z w : ℕ) (m d : Bytes) (size : length m ≡ 16) (ha : IsByte a) (hb : IsByte b)
    (hx : IsByte x) (hy : IsByte y) (hz : IsByte z) (hw : IsByte w) (f : Frame) where
  abbrev n : ℕ
  n = x * 16777216 + y * 65536 + z * 256 + w

  abbrev input : Bytes
  input = a ∷ b ∷ c ∷ t ∷ (m ++ x ∷ y ∷ z ∷ w ∷ d)

  module _ (p : Passed input f) where
    body_len : u32_at input 20 ≡ n
    body_len = omega (
      arith,
      byte_at-append m (x ∷ y ∷ z ∷ w ∷ d) 16 0 size,
      byte_at-append m (x ∷ y ∷ z ∷ w ∷ d) 16 1 size,
      byte_at-append m (x ∷ y ∷ z ∷ w ∷ d) 16 2 size,
      byte_at-append m (x ∷ y ∷ z ∷ w ∷ d) 16 3 size,
    )

    length-rest : n ≤ length d
    length-rest = omega (arith, p.enough, body_len, length-append m (x ∷ y ∷ z ∷ w ∷ d))

    frame_eq : f ≡ record {
      magic = frame_magic;
      version = protocol_version;
      msg_type = t;
      msg_id = m;
      body = take n d;
    }
    frame_eq =
        p.frame
        ∙ rw (
          body_len,
          take-append_eq m (x ∷ y ∷ z ∷ w ∷ d) 16 size,
          drop-append_add m (x ∷ y ∷ z ∷ w ∷ d) 16 4 size,
        )

    length-body : length f.body ≡ n
    length-body = rw frame_eq (omega (arith, length-take n d, length-rest))

    IsFrame-decoded : IsFrame f
    IsFrame-decoded = record {
      magic = rw frame_eq refl;
      version = rw frame_eq refl;
      id_size = rw frame_eq size;
      body_fits = omega (arith, length-body);
    }

    digits : (n / 16777216 % 256 ≡ x) × (n / 65536 % 256 ≡ y) × (n / 256 % 256 ≡ z) × (n % 256 ≡ w)
    digits = omega arith

    header : (0x4d ≡ a) × (0x48 ≡ b) × (0x01 ≡ c)
    header = omega (arith, p.magic, p.version)

    wire-input : wire f.msg_type f.msg_id (length f.body) (f.body ++ drop n d) ≡ input
    wire-input = ground (arith, frame_eq, length-body, take-append-drop n d, digits, header)

    decoded : IsDecoded input f
    decoded = record {
      frame = IsFrame-decoded;
      rest = drop n d;
      input = sym (to_bytes-wire f (drop n d) IsFrame-decoded ∙ wire-input);
    }

-- Whatever from_bytes accepts is the encoding of the frame that it returns, with at most more
-- bytes behind: the magic number and the version are right, the id has 16 bytes and the body is
-- whole.
pub from_bytes_sound : (d : Bytes) (f : Frame) → All IsByte d → from_bytes d ≡ ok f → IsDecoded d f
from_bytes_sound d f h e =
    let p = from_bytes-Passed d f e in
    let (a, b, c, t, r, split) = split_four d (omega (arith, p.enough)) in
    let size : 24 ≤ length r + 4 = omega (arith, p.enough, ap length split) in
    let long : length (take 16 r) + length (drop 16 r) ≡ length r =
      omega (arith, ap length (take-append-drop 16 r), length-append (take 16 r) (drop 16 r)) in
    let m_size : length (take 16 r) ≡ 16 = omega (arith, length-take 16 r) in
    let (x, y, z, w, q, split') = split_four (drop 16 r) (omega arith) in
    let whole : d ≡ a ∷ b ∷ c ∷ t ∷ (take 16 r ++ x ∷ y ∷ z ∷ w ∷ q) =
      split ∙ ap (λ v. a ∷ b ∷ c ∷ t ∷ v) (sym (rw (← split') (take-append-drop 16 r))) in
    let front : All IsByte (a ∷ b ∷ c ∷ t ∷ r) = subst (All IsByte) split h in
    let back : All IsByte (x ∷ y ∷ z ∷ w ∷ q) =
      subst (All IsByte) split' (All-drop IsByte 16 r front.1.1.1.1) in
    subst (λ v. IsDecoded v f) (sym whole)
      (decoded a b c t x y z w (take 16 r) q m_size front.0 front.1.0 back.0 back.1.0 back.1.1.0
        back.1.1.1.0 f (subst (λ v. Passed v f) whole p))
