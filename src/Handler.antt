-- ===== src/Handler.antt =====
-- Paths that requests name (internal/handler).
pub mod Clean
pub mod Idempotent
pub mod TrashPath
pub mod Upload
pub mod Names
pub mod Admin
pub mod Login
pub mod Recovery
mod Examples
