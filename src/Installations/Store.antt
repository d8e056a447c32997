-- ===== src/Installations/Store.antt =====
-- The stores of the installations context behind its ports, as the adapters under
-- libs/control-plane/installations/src/test-support keep them: one map by id for each table.
use pos_cloud.Common.{ℕ, Bool, not, ◌&&◌, Option, ok, Action, is_some}
use pos_cloud.Common.Text.{Text, ◌===◌}
use pos_cloud.Common.JsMap.{JsMap, get, set, find, count}
use pos_cloud.Kernel.{Env, World}
use pos_cloud.Installations.Status.{decommissioned, same_status}
use pos_cloud.Installations.Errors.{InstallationError}
use pos_cloud.Installations.Installation.{Installation}
use pos_cloud.Installations.Enrollment.{InstallationEnrollment}
use pos_cloud.Installations.Credential.{InstallationCredential, is_revoked}

-- A row of `installations.installation_health`.
pub record HealthRow : Type 0 where
  pub first_seen_at : ℕ
  pub last_seen_at : ℕ
  pub client_reported_at : Option ℕ
  pub app_version : Text

pub record Db : Type 0 where
  pub installations : JsMap Installation
  pub enrollments : JsMap InstallationEnrollment
  pub credentials : JsMap InstallationCredential
  pub health : JsMap HealthRow

-- application/ports/customer-reader.port.ts and license-reader.port.ts: what another context
-- answers at the time of the call.
pub record CustomerSummary : Type 0 where
  pub id : Text
  pub active : Bool

pub record LicenseSummary : Type 0 where
  pub id : Text
  pub customer_id : Text
  pub max_installations : ℕ
  pub usable : Bool

pub record Ports : Type 0 where
  pub env : Env
  pub find_customer_summary : Text → Option CustomerSummary
  pub find_license_summary : Text → Option LicenseSummary
  pub enrollment_code_ttl_seconds : ℕ

abbrev pub M : Type 0 → Type 0
M A = Action (World Db) InstallationError A

-- InMemoryInstallationRepository

abbrev pub find_installation : Text → M (Option Installation)
find_installation id w = (ok (get id w.db.installations), w)

abbrev pub has_code : Text → Installation → Bool
has_code code i = i.installation_code === code

abbrev pub find_installation_by_code : Text → M (Option Installation)
find_installation_by_code code w = (ok (find (has_code code) w.db.installations), w)

abbrev pub save_installation : Installation → M (Unit {0})
save_installation i w =
    (ok tt, record w { db = record (w.db) { installations = set i.id i w.db.installations } })

abbrev pub counts_for_license : Text → Installation → Bool
counts_for_license license_id i =
    i.license_id === license_id && not (same_status i.status decommissioned)

abbrev pub count_non_decommissioned_by_license : Text → M ℕ
count_non_decommissioned_by_license license_id w =
    (ok (count (counts_for_license license_id) w.db.installations), w)

-- InMemoryInstallationEnrollmentIssuanceUnitOfWork and
-- InMemoryInstallationEnrollmentConsumptionUnitOfWork

-- An id that is not a UUID finds nothing, as in this repository. The uuid column of PostgreSQL
-- would raise an error for it.
abbrev pub find_enrollment : Text → M (Option InstallationEnrollment)
find_enrollment id w = (ok (get id w.db.enrollments), w)

abbrev pub is_open : InstallationEnrollment → Bool
is_open e = not (is_some e.consumed_at) && not (is_some e.revoked_at)

abbrev pub is_open_for : Text → InstallationEnrollment → Bool
is_open_for installation_id e = e.installation_id === installation_id && is_open e

abbrev pub find_open_enrollment : Text → M (Option InstallationEnrollment)
find_open_enrollment installation_id w =
    (ok (find (is_open_for installation_id) w.db.enrollments), w)

abbrev pub save_enrollment : InstallationEnrollment → M (Unit {0})
save_enrollment e w =
    (ok tt, record w { db = record (w.db) { enrollments = set e.id e w.db.enrollments } })

abbrev pub is_active : InstallationCredential → Bool
is_active c = not (is_revoked c)

abbrev pub is_active_for : Text → InstallationCredential → Bool
is_active_for installation_id c = c.installation_id === installation_id && is_active c

abbrev pub find_active_credential : Text → M (Option InstallationCredential)
find_active_credential installation_id w =
    (ok (find (is_active_for installation_id) w.db.credentials), w)

abbrev pub save_credential : InstallationCredential → M (Unit {0})
save_credential c w =
    (ok tt, record w { db = record (w.db) { credentials = set c.id c w.db.credentials } })
