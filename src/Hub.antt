-- ===== src/Hub.antt =====
-- hub.go and client.go: the hub of the WebSocket clients.
pub mod Topics
pub mod Run
pub mod Invariant
pub mod Broadcast
pub mod Reached
pub mod Delivery
pub mod Refinement
