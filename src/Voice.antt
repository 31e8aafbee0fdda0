-- ===== src/Voice.antt =====
-- voice.go: the voice connection.
pub mod Dave
pub mod Bytes
pub mod Connection
pub mod Messages
pub mod Sessions
pub mod Lifetime
pub mod Keeping
pub mod Steps
pub mod History
pub mod Packets
pub mod Receiving
pub mod Rounds
pub mod Numbering
pub mod Nonces
pub mod Sealed
pub mod Rtp
pub mod Delivery
