-- ===== src/State/Laws.antt =====
-- What can be read from the state of state.go after an operation.
pub mod Guilds
pub mod Lists
pub mod Channels
pub mod Messages
pub mod Threads
pub mod Errors
