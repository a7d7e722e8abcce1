-- ===== src/Telemetry.antt =====
-- internal/telemetry: what the server takes of a batch of measurements, and its stream to clients.
pub mod Batch
pub mod Normalize
pub mod Hub
pub mod Ingest
pub mod Maintenance
pub mod Storage
pub mod Enrollment
mod Tests
