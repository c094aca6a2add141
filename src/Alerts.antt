-- ===== src/Alerts.antt =====
-- Threshold alerts: the table (models/alert.py), the beat task (tasks/alerts.py) and the routes
-- (api/alerts.py).
pub mod Table
pub mod Upsert
pub mod Check
pub mod Steps
pub mod Newest
pub mod Rerun
pub mod Routes
pub mod Listing
pub mod Acknowledge
mod Tests
