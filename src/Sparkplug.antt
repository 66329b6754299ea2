-- ===== src/Sparkplug.antt =====
-- Sparkplug B: src/sparkplugdevice.cpp and src/sparkplugnode.cpp.
pub mod Publish
pub mod Device
pub mod Node
pub mod Task
pub mod Births
pub mod Aliases
pub mod Numbering
pub mod Deaths
pub mod Handles
pub mod Events
pub mod Runs
pub mod Waiting
pub mod Leaving
pub mod Stopping
pub mod Start
pub mod Starting
pub mod Creation
pub mod Routing
