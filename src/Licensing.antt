-- ===== src/Licensing.antt =====
-- libs/control-plane/licensing: licenses and their entitlements.
pub mod Status
pub mod License
pub mod UseCases
pub mod Listing
pub mod Responses
pub mod Controller
mod Tests
