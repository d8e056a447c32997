-- ===== src/ControlPlane.antt =====
-- apps/api/src/control-plane: the three contexts as the API puts them together, each reading the
-- others through the adapters.
pub mod Adapters
pub mod Summaries
pub mod Calls
pub mod Capacity
pub mod Creation
pub mod Shown
pub mod Answers
pub mod Pages
pub mod Licenses
mod Tests
