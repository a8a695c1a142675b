-- ===== src/Tests.antt =====
-- The models evaluated on small inputs, and each theorem applied at one of them.
pub mod Machine
pub mod Wire
pub mod Buffer
pub mod Table
pub mod Paths
pub mod Rpc
pub mod Reads
pub mod Names
pub mod Requests
pub mod Close
pub mod Trust
pub mod Mounts
pub mod Admission
pub mod Connection
pub mod Metadata
