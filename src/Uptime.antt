-- ===== src/Uptime.antt =====
-- internal/uptime: the prober of the operator's targets.
pub mod Target
pub mod Store
pub mod Service
mod Tests
