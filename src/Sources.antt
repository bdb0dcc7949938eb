-- ===== src/Sources.antt =====
-- The modules about where data comes from: the cache, date windows, the matches query and how fresh
-- its answer is.
pub mod Cache
pub mod Dates
pub mod Query
pub mod Freshness
pub mod TableOrder
pub mod Standings
mod Tests
