-- ===== src/Publisher.antt =====
-- The alert publisher of the Celery worker (mqtt/publisher.py).
pub mod Queue
pub mod Kept
pub mod Batch
pub mod Retry
pub mod Alert
mod Tests
