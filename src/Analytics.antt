-- ===== src/Analytics.antt =====
-- internal/analytics: visits and pageviews of the tracked sites.
pub mod Beacon
pub mod Agents
pub mod Channels
pub mod Query
pub mod Store
pub mod Service
mod Tests
