-- ===== src/Voice/Dave.antt =====
-- voice_dave_controller_libdave.go: the controller that encrypts a voice connection from end to
-- end.
pub mod Controller
pub mod Transitions
pub mod Audio
pub mod Owning
pub mod Owned
pub mod Using
pub mod Calls
pub mod Answering
pub mod Histories
pub mod Alive
pub mod Renewing
pub mod Group
pub mod Refining
pub mod Modes
pub mod Promises
