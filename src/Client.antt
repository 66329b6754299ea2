-- ===== src/Client.antt =====
-- The base class of the clients: include/pubsub/ipubsubclient.h and src/ipubsubclient.cpp.
pub mod Defs
pub mod Subscriptions
pub mod Publishing
pub mod Config
pub mod Configured
