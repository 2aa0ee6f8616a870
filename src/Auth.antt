-- ===== src/Auth.antt =====
-- Authentication (internal/auth): stores whose entries expire, and the challenges built on them.
pub mod Timed
pub mod Challenge
pub mod Totp
pub mod Cookie
mod Examples
