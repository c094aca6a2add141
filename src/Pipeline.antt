-- ===== src/Pipeline.antt =====
-- The task that takes a reading in (tasks/process_reading.py).
pub mod Enrich
pub mod Task
pub mod Built
pub mod Stored
mod Tests
