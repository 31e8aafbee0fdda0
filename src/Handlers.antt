-- ===== src/Handlers.antt =====
-- event.go: the handlers of the application.
pub mod Registry
pub mod Removing
pub mod Calls
