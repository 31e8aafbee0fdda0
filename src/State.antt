-- ===== src/State.antt =====
-- state.go.
pub mod Types
pub mod Store
pub mod Guilds
pub mod Members
pub mod Channels
pub mod Threads
pub mod Events
pub mod Colors
pub mod Permissions
pub mod Keeps
pub mod Keyed
pub mod Laws
