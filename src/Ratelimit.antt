-- ===== src/Ratelimit.antt =====
-- ratelimit.go.
pub mod Buckets
pub mod Waiting
pub mod Releasing
pub mod Registry
