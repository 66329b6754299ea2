-- ===== src/Sparkplug/Routing.antt =====
-- The messages that a node hears, and the nodes, hosts and devices that it learns of from them
-- (`Message` and the functions that it calls in src/sparkplugnode.cpp).
pub mod Known
pub mod Handlers
pub mod Keys
pub mod Views
pub mod Refinement
pub mod Requests
pub mod Deliveries
pub mod Receivers
pub mod Unique
pub mod Fresh
pub mod Remote
