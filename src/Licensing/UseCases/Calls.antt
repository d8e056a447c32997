-- ===== src/Licensing/UseCases/Calls.antt =====
-- Any sequence of calls of the use cases that write to the store of licenses.
pub mod Reach
use pos_cloud.Common.{List, [], ◌∷◌}
use pos_cloud.Common.Text.{Text}
use pos_cloud.Kernel.{World, AuditActorContext}
use pos_cloud.Licensing.Status.{LicenseStatus}
use pos_cloud.Licensing.License.{CreateLicenseInput, ReplaceEntitlementItemInput}
use pos_cloud.Licensing.UseCases.{
  Db, Ports, create_license, change_license_status, replace_license_entitlements,
}

-- A call with its arguments. The port answers for the customers at the time of the call.
pub data Call : Type 0 where
  creates : CreateLicenseInput → AuditActorContext → Call
  changes_status : Text → LicenseStatus → AuditActorContext → Call
  replaces : Text → List ReplaceEntitlementItemInput → AuditActorContext → Call

-- what a call leaves, whether it returns or throws
unfoldable pub serve : Ports → Call → World Db → World Db
serve ports (creates command actor) w = (create_license ports command actor w).1
serve ports (changes_status id status actor) w = (change_license_status ports id status actor w).1
serve ports (replaces id items actor) w = (replace_license_entitlements ports id items actor w).1

unfoldable pub serve_all : List (Ports × Call) → World Db → World Db
serve_all [] w = w
serve_all ((ports, call) ∷ calls) w = serve_all calls (serve ports call w)
