-- ===== src/Payload/Protobuf.antt =====
-- Payloads as protobuf messages: src/payloadhelper.cpp over the messages of proto/sparkplug_b.proto.
-- The message classes are generated by protoc; their records here have the fields that the program
-- uses, with `none` for a field that is not set. Nested property sets, data sets and templates are
-- left out, and a floating point number is the text that the program prints for it.
mod Messages
mod Writing
mod Parsing
pub mod Metrics
pub mod Births
unfoldable pub use Messages.*
unfoldable pub use Writing.*
unfoldable pub use Parsing.*
