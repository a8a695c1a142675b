-- ===== src/Client.antt =====
-- The mount client, client/src: one module for each part.
pub mod WriteBuf
pub mod Errno
pub mod Send
pub mod Fetch
pub mod Listing
pub mod Inodes
pub mod Cache
pub mod Mount
pub mod Pinning
pub mod Fuse
pub mod Calls
