-- ===== src/Aggregation.antt =====
-- The periodic tasks of tasks/aggregation.py.
pub mod Rollup
pub mod Groups
pub mod Windows
pub mod Coverage
pub mod Idempotent
pub mod Retention
pub mod Purge
pub mod Sweep
mod Tests
