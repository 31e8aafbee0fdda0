-- ===== src/Gateway.antt =====
-- wsapi.go: the connection to the gateway.
pub mod Reconnecting
pub mod Messages
pub mod Opening
pub mod Opened
pub mod Blocked
