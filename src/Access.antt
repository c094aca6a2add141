-- ===== src/Access.antt =====
-- Access tokens and route protection (api/jwt.py).
pub mod Store
pub mod Guard
pub mod Revocation
pub mod Protection
mod Tests
