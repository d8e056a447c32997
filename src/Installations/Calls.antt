-- ===== src/Installations/Calls.antt =====
-- Any sequence of calls of the use cases on the stores.
pub mod Reach
pub mod Forever
pub mod Capacity
use pos_cloud.Common.{ℕ, List, [], ◌∷◌, Option}
use pos_cloud.Common.Text.{Text}
use pos_cloud.Kernel.{World, AuditActorContext}
use pos_cloud.Installations.Status.{InstallationStatus}
use pos_cloud.Installations.Store.{Db, Ports}
use pos_cloud.Installations.Create.{CreateInstallationCommand, create_installation}
use pos_cloud.Installations.Issue.{
  IssueInstallationEnrollmentCommand, issue_installation_enrollment,
}
use pos_cloud.Installations.Enroll.{enroll_installation}
use pos_cloud.Installations.Admin.{change_installation_status, revoke_installation_credential}
use pos_cloud.Installations.Health.{record_installation_heartbeat}

-- A call with its arguments. The ports answer for the other contexts at the time of the call.
pub data Call : Type 0 where
  creates : CreateInstallationCommand → AuditActorContext → Call
  issues : IssueInstallationEnrollmentCommand → AuditActorContext → Call
  enrolls : Text → Text → Call
  changes_status : Text → InstallationStatus → AuditActorContext → Call
  revokes : Text → AuditActorContext → Call
  beats : Text → Text → Option ℕ → Call

-- what a call leaves, whether it returns or throws
unfoldable pub serve : Ports → Call → World Db → World Db
serve ports (creates command actor) w = (create_installation ports command actor w).1
serve ports (issues command actor) w = (issue_installation_enrollment ports command actor w).1
serve ports (enrolls code correlation_id) w = (enroll_installation ports code correlation_id w).1
serve ports (changes_status id status actor) w =
    (change_installation_status ports id status actor w).1
serve ports (revokes id actor) w = (revoke_installation_credential ports id actor w).1
serve ports (beats id version reported) w =
    (record_installation_heartbeat ports id version reported w).1

-- calls one after the other, each with what the other contexts answer by then
unfoldable pub serve_all : List (Ports × Call) → World Db → World Db
serve_all [] w = w
serve_all ((ports, call) ∷ calls) w = serve_all calls (serve ports call w)
