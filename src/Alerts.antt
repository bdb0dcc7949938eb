-- ===== src/Alerts.antt =====
-- The monitor of match freshness and the receiver of its alerts: scripts/match-freshness-*.mjs and
-- infra/alert-receiver/worker.ts.
pub mod Observed
pub mod Run
pub mod State
pub mod Monitor
pub mod Delivery
pub mod Pattern
pub mod Payload
pub mod Receiver
pub mod Notification
pub mod Mailed
mod Samples
mod Tests
