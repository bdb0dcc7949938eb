-- ===== src/Tables.antt =====
-- League, group and phase tables.
pub mod Thirds
pub mod Overall
pub mod Phase
pub mod Liguilla
pub mod Derived
pub mod Zones
mod Tests
