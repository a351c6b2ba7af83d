-- ===== src/Core.antt =====
-- internal/core: the users, their sessions, and the images with their paths.
pub mod IdPartition
pub mod Images
pub mod Sessions
pub mod Uploads
pub mod Users
