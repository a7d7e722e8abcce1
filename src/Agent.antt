-- ===== src/Agent.antt =====
-- internal/agent: the durable queue of unsent batches and the sender that empties it.
pub mod Disk
pub mod Spool
pub mod Sender
mod Tests
