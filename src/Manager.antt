-- ===== src/Manager.antt =====
-- The queues of the server and the requests that wait on them (src/manager.c,
-- src/manager-internal.h): names of queues, the registry, and the wants.
pub mod Uuid
pub mod State
pub mod Registry
pub mod Wants
pub mod Shutdown
