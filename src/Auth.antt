-- ===== src/Auth.antt =====
-- internal/middlewares/auth/auth.go.
pub mod Permissions
pub mod Requests
pub mod UserInfo
pub mod Chain
pub mod Setup
