-- ===== src/AccessManagement.antt =====
-- libs/control-plane/access-management: administrators, their sessions and what they may do.
pub mod Errors
pub mod Email
pub mod AdminUser
pub mod AdminSession
pub mod Store
pub mod Login
pub mod Refresh
pub mod Bootstrap
pub mod Permission
pub mod Guards
mod Tests
