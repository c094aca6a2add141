-- ===== src/Mqtt.antt =====
-- The MQTT ingestion client (mqtt/client.py).
pub mod Subscriptions
pub mod Pending
pub mod Ready
pub mod Inbound
pub mod Accepted
pub mod Topics
pub mod Spacing
pub mod Worker
pub mod Delivery
mod Tests
