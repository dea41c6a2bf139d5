-- ===== src/Admin.antt =====
-- backend/internal/server/admin.go.
pub mod Settings
pub mod Users
pub mod Permissions
pub mod LastAdmin
