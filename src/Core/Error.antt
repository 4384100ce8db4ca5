-- ===== src/Core/Error.antt =====
-- mesh-core/src/error.rs. Where the source formats a message, the constructor keeps the values that
-- the message shows.
use mars_protocol.Common.{ℕ, Text}
use mars_protocol.Common.{Result as ResultOf}

-- The reasons that `InvalidRoutingKeys` is given.
pub data RoutingKeysReason : Type 0 where
  keys_empty : RoutingKeysReason
  too_many_keys : ℕ → ℕ → RoutingKeysReason

-- The messages that `FrameBody` is given.
pub data FrameFault : Type 0 where
  frame_too_short : ℕ → FrameFault
  body_truncated : ℕ → ℕ → FrameFault

pub data MeshError : Type 0 where
  id_mismatch : Text → Text → MeshError
  invalid_signature : MeshError
  expired : MeshError
  timestamp_future : ℕ → MeshError
  invalid_routing_keys : RoutingKeysReason → MeshError
  payload_too_large : ℕ → ℕ → MeshError
  topic_too_long : ℕ → ℕ → MeshError
  invalid_ttl : ℕ → ℕ → ℕ → MeshError
  stale_sequence : ℕ → ℕ → MeshError
  unknown_algorithm : ℕ → MeshError
  invalid_magic : ℕ → MeshError
  unsupported_version : ℕ → MeshError
  frame_body : FrameFault → MeshError
  cbor : MeshError
  signing : MeshError
  io : MeshError

-- `Result<T>` of the crate
abbrev pub Result : Type 0 → Type 0
Result A = ResultOf MeshError A
