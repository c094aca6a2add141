-- ===== src/Export.antt =====
-- The CSV export of api/export.py.
pub mod Csv
pub mod Chunks
pub mod Reader
pub mod Route
pub mod Cooldown
pub mod Selected
mod Tests
