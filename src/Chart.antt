-- ===== src/Chart.antt =====
-- The charts of sqlpage/apexcharts.js.
pub mod Align
pub mod Build
pub mod Data
pub mod Grouping
pub mod Options
pub mod Palette
pub mod Sections
pub mod Tooltip
mod Tests
