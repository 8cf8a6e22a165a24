-- ===== src/Upload.antt =====
-- services/upload: videos, chunked upload sessions and the janitor.
pub mod Domain
pub mod Effects
pub mod Session
pub mod Completion
pub mod VideoService
pub mod Janitor
pub mod Queries
pub mod Keeps
pub mod Etags
mod Examples
