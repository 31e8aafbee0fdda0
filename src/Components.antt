-- ===== src/Components.antt =====
-- components.go: message components, and the JSON that they are sent and received in.
pub mod Json
pub mod Types
pub mod Marshaling
pub mod Unmarshaling
pub mod Dispatching
pub mod Returning
pub mod RoundTrip
pub mod Typing
