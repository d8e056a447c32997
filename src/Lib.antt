-- ===== src/Lib.antt =====
-- Verification of the control plane of pos-cloud, the back office of a point-of-sale system. Paths
-- are from the root of the repository.
--
-- The control plane is a set of bounded contexts under libs/control-plane. Installations are POS
-- machines: an administrator creates one for a license and issues an enrollment code, the machine
-- exchanges the code for a credential, authenticates with it and sends heartbeats. Access
-- management holds the administrators, their sessions and their permissions. Every use case takes
-- ports for its stores, the clock, the id generator and the audit trail, and its writes are one
-- database transaction where a unit of work wraps them.
--
-- Common: Boolean tests, lists, JavaScript strings as lists of UTF-16 code units (Text),
-- JavaScript maps as association lists in insertion order (JsMap), the sort of an ORDER BY
-- (Sorting), and fallible actions on a state (Effects): an action returns a value or an error,
-- with the state that it leaves in either case.
-- Kernel: libs/shared-kernel and the recorder of libs/control-plane/audit. A `World` is the store
-- of a context with the number of readings of the clock, of ids and of secrets, and the audit
-- trail; `Env` gives the n-th value of each. A `transaction` drops what its callback wrote if the
-- callback throws.
-- Installations: libs/control-plane/installations. Status, Errors, Installation, Enrollment,
-- Credential are src/domain; Token is opaque-token-format.ts; Secrets the crypto adapter; Store
-- the ports as src/test-support implements them; Issue, Enroll, Create, Admin and Health the use
-- cases of src/application/use-cases, and Auth the guard of src/presentation/http/guards over its
-- credential verifier; Listing is the listing, Summaries the ports for what other contexts show,
-- Responses and Controller are src/presentation/http; Calls runs any sequence of calls, and
-- History relates stores by the final rows that they share. Invariant is the well-formedness of
-- the stores: rows are stored under their ids, ids to come are unused, an installation has at most
-- one open enrollment and at most one active credential, only an installation that has left
-- PENDING has credentials, codes are unique, and registeredAt is set exactly by the activation.
-- AccessManagement: libs/control-plane/access-management. Email, AdminUser, AdminSession are
-- src/domain; Login, Refresh and Bootstrap the use cases; Permission the tables of roles and the
-- resolver; Guards the two global guards.
-- CustomerManagement: libs/control-plane/customer-management. Status and Customer are src/domain,
-- UseCases src/application/use-cases, Listing the listing; Pagination is
-- libs/shared-kernel/src/pagination.ts, Criteria in it what the optional criteria of a query mean.
-- ControlPlane: apps/api/src/control-plane. Adapters fills the ports of licensing and
-- installations from the stores of the other contexts, Calls runs any calls of the three contexts
-- one after the other, Capacity and Creation are what holds of them together. Summaries is the two
-- adapters for display; Shown, Answers and Pages are what the installation controller answers over
-- them, Licenses what the license controller does. The contexts read the clock and draw ids on
-- their own; a call asks the others as they are when it begins, and a reading of the clock by an
-- adapter is not counted. Api.ExceptionFilter: apps/api/src/common/all-exceptions.filter.ts.
-- Audit: the listing of libs/control-plane/audit over the trail of a `World`; Audit.Listing is
-- what it shows.
-- Licensing: libs/control-plane/licensing. Status and License are src/domain, UseCases
-- src/application/use-cases and Listing the listing, Responses and Controller
-- src/presentation/http; the summary that it answers is what installations read of a license.
--
-- A use case `XUseCase.execute` is the action `x`; the callback of `runExclusive` is a definition
-- of its own, and so is each block of it that writes. Times are natural numbers of milliseconds.
-- An error class is a constructor without its message. No definition needs fuel: the loops are
-- those of the stores, by recursion on the list of entries.
-- Not in the repository, hence parameters: SHA-256, hexadecimal decoding, Argon2, the signing and
-- verifying of access tokens, the UUID test of class-validator, case conversion of strings,
-- randomness, the clock, and PostgreSQL, of which `ILIKE` and the order of the ids are parameters.
-- Calls of one context run one after the other, as the row and advisory locks make them. What
-- another context answers is a function of the port, which ControlPlane fills.
-- The stores are those of src/test-support, with the same reads and writes by id, code and owner
-- as the TypeORM repositories, but that the id of an enrollment code or of a refresh token that is
-- no UUID finds nothing, where the uuid columns of PostgreSQL raise an error. The `list` of each
-- repository is that of src/infrastructure/persistence: criteria, ILIKE search, the newest first
-- (Common.Sorting). Rows that the ORDER BY leaves equal stand in the order of the store; the
-- database fixes none, and what is said of pages put together is said for one order.
-- Not modelled: the controllers but those of the installations and the licenses, and the
-- validation of requests; NestJS modules, TypeORM mappers and migrations are wiring.
pub mod Common
pub mod Kernel
pub mod AccessManagement
pub mod Api
pub mod Audit
pub mod ControlPlane
pub mod CustomerManagement
pub mod Installations
pub mod Licensing
pub mod Pagination
