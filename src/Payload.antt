-- ===== src/Payload.antt =====
-- Payloads: include/pubsub/payload.h and src/payload.cpp.
pub mod Defs
pub mod Json
pub mod Metrics
pub mod Body
pub mod Protobuf
