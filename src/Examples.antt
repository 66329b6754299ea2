-- ===== src/Examples.antt =====
-- The theorems at concrete inputs.
mod Data
mod Files
mod Payloads
mod Topics
mod Clients
mod Nodes
mod Messages
mod Hosts
mod Pages
mod Sections
