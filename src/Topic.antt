-- ===== src/Topic.antt =====
-- Topic names: include/pubsub/itopic.h and src/itopic.cpp.
pub mod Name
pub mod Scanning
pub mod Parsing
pub mod Building
pub mod Object
