-- ===== src/Proto.antt =====
-- src/proto.rs: DNS wire format.
pub mod RType
pub mod Packet
pub mod Reader
pub mod Builder
pub mod Message
pub mod Dnssec
pub mod Reads
pub mod Names
pub mod RoundTrip
pub mod Returns
pub mod Typed
