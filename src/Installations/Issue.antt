-- ===== src/Installations/Issue.antt =====
-- application/use-cases/issue-installation-enrollment.use-case.ts
pub mod Invariant
use pos_cloud.Common.{
  ℕ, Bool, true, false, not, Option, none, some, List, [], ◌∷◌, ok, err, Action, ◌>>=◌, ◌>>◌, pure,
  or_throw, throw_if,
}
use pos_cloud.Common.Text.{Text, text}
use pos_cloud.Kernel.{
  Env, World, AuditActorContext, AuditEventInput, string_value, now, fresh_id, generate_secret,
  record_audit, transaction,
}
use pos_cloud.Installations.Status.{
  InstallationEnrollmentPurpose, is_installation_eligible_for_enrollment, purpose_text,
}
use pos_cloud.Installations.Errors.{
  InstallationError, installation_not_found, installation_not_eligible_for_enrollment,
}
use pos_cloud.Installations.Enrollment
use pos_cloud.Installations.Enrollment.{InstallationEnrollment}
use pos_cloud.Installations.Token.{format_opaque_token}
use pos_cloud.Installations.Store.{
  Db, Ports, M, find_installation, find_open_enrollment, save_enrollment,
}

pub record IssueInstallationEnrollmentCommand : Type 0 where
  pub installation_id : Text
  pub purpose : InstallationEnrollmentPurpose

pub record IssueInstallationEnrollmentResult : Type 0 where
  pub installation_id : Text
  pub enrollment_code : Text
  pub expires_at : ℕ

abbrev pub issued_event : AuditActorContext → IssueInstallationEnrollmentCommand → AuditEventInput
issued_event actor command = record {
  actor = actor;
  action = text "installation.enrollment.issued";
  resource_type = text "Installation";
  resource_id = command.installation_id;
  metadata = (text "purpose", string_value (purpose_text command.purpose)) ∷ [];
}

module _ (ports : Ports) where
  open ports use {env, enrollment_code_ttl_seconds}

  -- `if (priorOpenEnrollment) { … }`
  unfoldable pub revoke_open_enrollment : Option InstallationEnrollment → M (Unit {0})
  revoke_open_enrollment none = pure tt
  revoke_open_enrollment (some prior) = do t ← now env; save_enrollment (Enrollment.revoke t prior)

  unfoldable pub issue_new :
      IssueInstallationEnrollmentCommand → M IssueInstallationEnrollmentResult
  issue_new command = do
    secret ← generate_secret env
    id ← fresh_id env
    t ← now env
    let enrollment =
        Enrollment.issue
          (record {
            id = id;
            installation_id = command.installation_id;
            purpose = command.purpose;
            code_hash = env.sha256_hex secret;
            ttl_seconds = enrollment_code_ttl_seconds;
          })
          t
    save_enrollment enrollment
    pure (record {
      installation_id = command.installation_id;
      enrollment_code = format_opaque_token enrollment.id secret;
      expires_at = enrollment.expires_at;
    })

  -- the callback of `runExclusive`
  unfoldable pub issue_locked :
      IssueInstallationEnrollmentCommand → M IssueInstallationEnrollmentResult
  issue_locked command = do
    installation ← or_throw (← find_installation command.installation_id) installation_not_found
    throw_if (not (is_installation_eligible_for_enrollment installation.status command.purpose))
        (installation_not_eligible_for_enrollment installation.status command.purpose)
    prior ← find_open_enrollment command.installation_id
    revoke_open_enrollment prior
    issue_new command

  unfoldable pub issue_installation_enrollment :
      IssueInstallationEnrollmentCommand → AuditActorContext → M IssueInstallationEnrollmentResult
  issue_installation_enrollment command actor = do
    result ← transaction (issue_locked command)
    record_audit env (issued_event actor command)
    pure result
