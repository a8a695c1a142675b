-- ===== src/EndToEnd.antt =====
-- What the client and the server do together, over a connection that delivers its frames.
pub mod Writing
pub mod Rpc
pub mod Reading
pub mod Listing
pub mod Metadata
