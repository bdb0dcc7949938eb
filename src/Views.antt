-- ===== src/Views.antt =====
-- The models behind small views: the cut of a league table and the calendar's loading state.
pub mod Cut
pub mod Calendar
mod Tests
