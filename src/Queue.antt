-- ===== src/Queue.antt =====
-- One queue of items and its waiting callbacks (src/queue.c, src/queue-internal.h): the state, the
-- operations, and what they keep and deliver.
pub mod State
pub mod Item
pub mod Ops
pub mod Counts
pub mod Distinct
pub mod Skips
pub mod First
pub mod Borrow
pub mod Invariant
pub mod History
pub mod Mailbox
pub mod Refinement
pub mod RoundTrip
pub mod Lock
pub mod Release
