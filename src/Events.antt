-- ===== src/Events.antt =====
-- The event queue (orange-sdk/src/event.rs). The data and the operations are in the children, and
-- so are their proofs.
pub mod Types
pub mod Queue
