-- ===== src/Admin.antt =====
-- The runtime settings of the administrators (api/admin.py).
pub mod Settings
pub mod Update
pub mod Audit
pub mod Race
mod Tests
