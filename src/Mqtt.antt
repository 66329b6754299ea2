-- ===== src/Mqtt.antt =====
-- The plain MQTT client: src/mqttclient.h and src/mqttclient.cpp.
pub mod Machine
pub mod Events
pub mod Invariant
pub mod Timing
pub mod Leaving
pub mod Stopping
pub mod Messages
