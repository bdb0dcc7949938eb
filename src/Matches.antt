-- ===== src/Matches.antt =====
-- The modules about matches: what a page leads with, and a team's recent record.
pub mod Priority
pub mod Performance
pub mod Stories
pub mod Changes
pub mod Form
mod Tests
