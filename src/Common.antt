-- ===== src/Common.antt =====
-- What both ends share, common/src: statuses, frames on the wire, and stored trust.
pub mod Status
pub mod Text
pub mod TextMap
pub mod Trust
pub mod FrameIo
