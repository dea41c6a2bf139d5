-- ===== src/Admin/LastAdmin.antt =====
-- No request to the account handlers takes the last enabled administrator away.
mod Counting
mod Statements
pub mod Handlers
mod Tests
pub use Counting.{UsersOk}
