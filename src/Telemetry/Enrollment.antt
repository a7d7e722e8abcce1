-- ===== src/Telemetry/Enrollment.antt =====
-- internal/telemetry/application/enrollment.go and infrastructure/enrollment.go: how a host gets its
-- place in the tunnel.
pub mod Addresses
pub mod Store
pub mod Service
pub mod Sound
pub mod Spent
mod Tests
pub mod History
