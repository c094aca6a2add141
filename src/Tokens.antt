-- ===== src/Tokens.antt =====
-- Accounts and their tokens: models/refresh_token.py, models/password_reset_token.py and api/auth.py.
pub mod Store
pub mod Session
pub mod Reset
pub mod Rotation
pub mod Distinct
pub mod Logout
pub mod Password
mod Tests
