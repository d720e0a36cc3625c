-- ===== src/System.antt =====
-- The whole server: what the components keep together, between two callbacks of the event loop.
pub mod Sound
pub mod Lookup
pub mod Wants
pub mod Guards
pub mod Items
pub mod Handlers
pub mod Waiting
pub mod Sockets
pub mod Upgrade
pub mod Reachable
pub mod Service
pub mod RoundTrip
