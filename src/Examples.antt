-- ===== src/Examples.antt =====
-- Concrete inputs: each theorem with hypotheses, applied where they hold.
pub mod Primitives
pub mod Wire
pub mod Table
pub mod Stored
pub mod Revoked
pub mod Rotated
pub mod Nodes
pub mod Hubs
pub mod Clients
pub mod Peers
pub mod Database
pub mod Operated
