-- ===== src/Examples/Wire.antt =====
-- Examples on mesh-core: the wire, descriptors, routing keys.
use mars_protocol.Common.{
  ℕ, ◌≡◌, ◌↔◌, refl, List, [], ◌∷◌, ◌++◌, replicate, All, IsByte, arith, Bytes, Text, codes, ok,
}
use mars_protocol.Core.Hash.{Hash}
use mars_protocol.Core.Descriptor.{create, validate}
use mars_protocol.Core.Descriptor.Validity.{validate_iff, IsAcceptable}
use mars_protocol.Core.Frame.{Frame, to_bytes, from_bytes, frame_magic, protocol_version}
use mars_protocol.Core.Frame.RoundTrip.{IsFrame, from_bytes-to_bytes}
use mars_protocol.Examples.Primitives.{sample, alice, key_a, noon, made}

abbrev ping_frame : Frame
ping_frame = record {
  magic = frame_magic;
  version = protocol_version;
  msg_type = 1;
  msg_id = replicate 16 9;
  body = 5 ∷ 6 ∷ [];
}

ping_frame-IsFrame : IsFrame ping_frame
ping_frame-IsFrame = record {
  magic = refl;
  version = refl;
  id_size = refl;
  body_fits = omega arith;
}

from_bytes-to_bytes_example : from_bytes (to_bytes ping_frame ++ 1 ∷ []) ≡ ok ping_frame
from_bytes-to_bytes_example = from_bytes-to_bytes ping_frame (1 ∷ []) ping_frame-IsFrame

abbrev ping_bytes : Bytes
ping_bytes = 0x4d ∷ 0x48 ∷ 1 ∷ 1 ∷ (replicate 16 9 ++ 0 ∷ 0 ∷ 0 ∷ 2 ∷ 5 ∷ 6 ∷ [])

ping_bytes-IsByte : All IsByte ping_bytes
ping_bytes-IsByte = ground arith

ping_bytes_ok : from_bytes ping_bytes ≡ ok ping_frame
unfolding from_bytes
ping_bytes_ok = refl

validate_iff_example :
    (validate sample (made alice key_a (codes "t") []) noon ≡ ok tt)
    ↔ IsAcceptable sample (made alice key_a (codes "t") []) noon
unfolding create
validate_iff_example =
    validate_iff sample (made alice key_a (codes "t") []) noon (omega arith) (omega arith)

abbrev topic : Text
topic = codes "t"

abbrev payload : Bytes
payload = 4 ∷ 5 ∷ []

abbrev one : ℕ
one = 1

abbrev minute : ℕ
minute = 60

abbrev keys : List Hash
keys = key_a ∷ []

abbrev path : Text
path = codes "compute/inference"
