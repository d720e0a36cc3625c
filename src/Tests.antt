-- ===== src/Tests.antt =====
-- Concrete inputs, and what the theorems say of them.
pub mod Data
pub mod Queues
pub mod Registry
pub mod Handlers
pub mod Passwords
pub mod Startup
pub mod Sockets
pub mod System
