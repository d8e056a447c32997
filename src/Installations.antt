-- ===== src/Installations.antt =====
-- libs/control-plane/installations: POS machines, their enrollment codes, credentials and
-- heartbeats.
pub mod Status
pub mod Errors
pub mod Installation
pub mod Enrollment
pub mod Credential
pub mod Token
pub mod Store
pub mod Summaries
pub mod Listing
pub mod Responses
pub mod Controller
pub mod Issue
pub mod Secrets
pub mod Enroll
pub mod Create
pub mod Admin
pub mod Health
pub mod Invariant
pub mod History
pub mod Auth
pub mod Calls
mod Tests
