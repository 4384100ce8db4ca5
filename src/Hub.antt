-- ===== src/Hub.antt =====
-- The crate mesh-hub: the guards of a hub, and its peering with other hubs.
pub mod RateLimit
pub mod Policy
pub mod Network
pub mod Peering
pub mod Redb
pub mod Cache
pub mod Auth
pub mod Tenants
pub mod Hooks
pub mod Admin
pub mod Seeding
