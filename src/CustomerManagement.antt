-- ===== src/CustomerManagement.antt =====
-- libs/control-plane/customer-management: the customers that licenses and installations belong to.
pub mod Status
pub mod Customer
pub mod UseCases
pub mod Listing
mod Tests
