-- ===== src/Server.antt =====
-- The file server, server/src: one module for each part.
pub mod Handles
pub mod Sanitize
pub mod Write
pub mod Read
pub mod ReadDir
pub mod Os
pub mod Confined
pub mod Meta
pub mod SetAttr
pub mod Auth
pub mod Admission
pub mod Connection
pub mod Files
