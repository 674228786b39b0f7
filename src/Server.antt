-- ===== src/Server.antt =====
-- src/server.rs: the answer to a query.
pub mod Responses
pub mod Authority
pub mod State
pub mod Query
pub mod Echoes
pub mod Echo
pub mod Sent
pub mod Settled
pub mod Counted
pub mod Counts
pub mod Remembers
pub mod Closed
pub mod Deferred
pub mod Zones
pub mod Truncation
pub mod Transfer
pub mod Pools
pub mod Supervisor
pub mod Serve
pub mod Background
pub mod Startup
pub mod Dot
pub mod Doh
pub mod Held
pub mod System
pub mod Bodies
pub mod Pieces
pub mod Streams
