-- ===== src/Middleware.antt =====
-- The middleware of HTTP requests: internal/middleware/middleware.go.
pub mod Paths
pub mod Guard
mod Examples
