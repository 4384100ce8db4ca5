-- ===== src/Core.antt =====
-- The crate mesh-core: hashes, identities, descriptors, wire frames, messages and routing keys.
pub mod External
pub mod Error
pub mod Hash
pub mod Identity
pub mod RoutingKey
pub mod Descriptor
pub mod Frame
pub mod Message
