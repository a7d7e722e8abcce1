-- ===== src/Operator.antt =====
-- internal/operator: the console that queues commands for a host, with its incidents and audit log.
pub mod Command
pub mod Validate
pub mod Incident
pub mod Audit
pub mod Store
pub mod Records
pub mod Service
pub mod History
pub mod Handlers
mod Tests
