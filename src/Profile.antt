-- ===== src/Profile.antt =====
-- The account of the current user (api/profile.py).
pub mod Account
pub mod Ended
mod Tests
