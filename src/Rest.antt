-- ===== src/Rest.antt =====
-- restapi.go: how a request is sent.
pub mod Requests
pub mod Attempts
pub mod Retries
pub mod Locking
pub mod Outcomes
pub mod Endpoints
pub mod Sending
pub mod Sent
