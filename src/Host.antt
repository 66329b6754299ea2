-- ===== src/Host.antt =====
-- The Sparkplug host application: src/sparkplughost.h and src/sparkplughost.cpp.
pub mod Machine
pub mod Events
pub mod Telling
pub mod State
pub mod Deaf
pub mod Truth
pub mod Life
pub mod Leaving
