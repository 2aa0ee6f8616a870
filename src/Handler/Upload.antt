-- ===== src/Handler/Upload.antt =====
-- Direct uploads: internal/handler/upload.go.
pub mod Sizes
mod Packing
pub mod Parts
mod PartSize
mod Overflow
mod Complete
pub mod Requests
mod Target
mod Presign
mod Examples
