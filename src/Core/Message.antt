-- ===== src/Core/Message.antt =====
-- mesh-core/src/message.rs: the messages of the protocol. Their CBOR form is serde's and ciborium's.
use mars_protocol.Common.{ℕ, List, Option, Text, codes}
use mars_protocol.Core.Hash.{Hash}
use mars_protocol.Core.Identity.{Identity}
use mars_protocol.Core.Descriptor.{Descriptor}

pub record NodeAddr : Type 0 where
  pub protocol : Text
  pub address : Text

-- `NodeAddr::quic`
unfoldable pub quic : Text → NodeAddr
quic address = record { protocol = codes "quic"; address = address }

pub record NodeInfo : Type 0 where
  pub identity : Identity
  pub addr : NodeAddr
  pub last_seen : ℕ

pub record FilterSet : Type 0 where
  pub schema_hash : Option Hash
  pub min_timestamp : Option ℕ
  pub publisher : Option Identity

pub record Ping : Type 0 where
  pub sender : Identity
  pub sender_addr : NodeAddr

pub record Store : Type 0 where
  pub sender : Identity
  pub sender_addr : NodeAddr
  pub descriptor : Descriptor

pub record FindNode : Type 0 where
  pub sender : Identity
  pub sender_addr : NodeAddr
  pub target : Hash

pub record FindValue : Type 0 where
  pub sender : Identity
  pub sender_addr : NodeAddr
  pub key : Hash
  pub max_results : ℕ
  pub filters : Option FilterSet

pub record Pong : Type 0 where
  pub sender : Identity
  pub sender_addr : NodeAddr
  pub observed_addr : NodeAddr

pub record FindNodeResult : Type 0 where
  pub nodes : List NodeInfo

pub record FindValueResult : Type 0 where
  pub descriptors : Option (List Descriptor)
  pub nodes : Option (List NodeInfo)
