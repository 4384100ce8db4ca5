-- ===== src/Dht.antt =====
-- The crate mesh-dht: distances, the routing table, the descriptor store and the node.
pub mod Distance
pub mod Routing
pub mod Storage
pub mod Node
pub mod Client
pub mod Lookup
