-- ===== src/Limits.antt =====
-- The rate limiter (api/rate_limit.py).
pub mod Window
pub mod Budget
pub mod Replies
mod Tests
