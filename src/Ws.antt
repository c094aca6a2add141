-- ===== src/Ws.antt =====
-- The WebSocket broadcasts (api/ws/manager.py, api/ws/routes.py).
pub mod Manager
pub mod Session
pub mod Delivery
pub mod Authorized
pub mod Expiry
mod Tests
