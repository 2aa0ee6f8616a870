-- ===== src/Model.antt =====
-- The in-memory repositories (internal/model).
pub mod Keys
pub mod Result
pub mod Modify
pub mod Trash
pub mod Session
pub mod Share
pub mod Task
pub mod Cleanup
pub mod File
pub mod User
pub mod Workspace
