-- ===== src/Installations/Enroll.antt =====
-- application/use-cases/enroll-installation.use-case.ts
pub mod Checks
pub mod Steps
pub mod Correct
pub mod Outcome
use pos_cloud.Common.{
  ℕ, Bool, true, false, not, ◌&&◌, Option, none, some, List, [], ◌∷◌, ok, err, Action, ◌>>=◌, ◌>>◌,
  pure, or_throw, throw_if, lift, if◌then◌else◌,
}
use pos_cloud.Common.Text.{Text, text}
use pos_cloud.Kernel.{
  Env, World, AuditActorContext, AuditEventInput, string_value, installation, now, fresh_id,
  generate_secret, record_audit, transaction,
}
use pos_cloud.Installations.Status.{
  InstallationStatus, pending, InstallationEnrollmentPurpose, is_initial, same_status,
  is_installation_eligible_for_enrollment, purpose_text, status_text,
}
use pos_cloud.Installations.Errors.{InstallationError, enrollment_failed}
use pos_cloud.Installations.Installation
use pos_cloud.Installations.Installation.{Installation}
use pos_cloud.Installations.Enrollment
use pos_cloud.Installations.Enrollment.{InstallationEnrollment, is_consumable, mark_consumed}
use pos_cloud.Installations.Credential
use pos_cloud.Installations.Credential.{InstallationCredential, is_revoked}
use pos_cloud.Installations.Secrets.{secret_matches_hash}
use pos_cloud.Installations.Token.{OpaqueToken, format_opaque_token, parse_opaque_token}
use pos_cloud.Installations.Store.{
  Db, Ports, M, find_installation, save_installation, find_enrollment, save_enrollment,
  find_active_credential, save_credential,
}

pub record EnrollInstallationResult : Type 0 where
  pub installation_id : Text
  pub credential : Text

-- what the callback of `runExclusive` returns
pub record EnrollmentOutcome : Type 0 where
  pub installation_id : Text
  pub credential : Text
  pub purpose : InstallationEnrollmentPurpose
  pub resulting_status : InstallationStatus

abbrev pub consumed_event : Text → EnrollmentOutcome → AuditEventInput
consumed_event correlation_id outcome = record {
  actor = record {
    actor_type = installation;
    actor_id = some outcome.installation_id;
    correlation_id = correlation_id;
  };
  action = text "installation.enrollment.consumed";
  resource_type = text "Installation";
  resource_id = outcome.installation_id;
  metadata =
      (text "purpose", string_value (purpose_text outcome.purpose))
      ∷ (text "resultingStatus", string_value (status_text outcome.resulting_status))
      ∷ [];
}

module _ (ports : Ports) where
  open ports use {env, find_customer_summary, find_license_summary}

  -- the callback of `runExclusive`, up to the last check
  unfoldable pub check_enrollment : OpaqueToken → Text → M (Installation × InstallationEnrollment)
  check_enrollment parsed installation_id = do
    i ← or_throw (← find_installation installation_id) enrollment_failed
    e ← or_throw (← find_enrollment parsed.id) enrollment_failed
    throw_if (not (secret_matches_hash env parsed.secret e.code_hash)) enrollment_failed
    t ← now env
    throw_if (not (is_consumable e t)) enrollment_failed
    throw_if (not (is_installation_eligible_for_enrollment i.status e.purpose)) enrollment_failed
    customer ← or_throw (find_customer_summary i.customer_id) enrollment_failed
    throw_if (not customer.active) enrollment_failed
    license ← or_throw (find_license_summary i.license_id) enrollment_failed
    throw_if (not license.usable) enrollment_failed
    pure (i, e)

  unfoldable pub consume : InstallationEnrollment → M (Unit {0})
  consume e = do t ← now env; save_enrollment (mark_consumed t e)

  unfoldable pub activate_if_initial : Installation → InstallationEnrollment → M Installation
  activate_if_initial i e =
      if is_initial e.purpose && same_status i.status pending
      then (do t ← now env; i' ← lift (Installation.activate t i); save_installation i'; pure i')
      else pure i

  -- `existingCredential.revoke(clock)`, which reads the clock unless the credential is revoked
  unfoldable pub revoke_credential : InstallationCredential → M (Unit {0})
  revoke_credential c =
      if is_revoked c
      then save_credential c
      else (do t ← now env; save_credential (Credential.revoke t c))

  unfoldable pub revoke_active_credential : Text → M (Unit {0})
  unfolding revoke_credential
  revoke_active_credential installation_id = do
    existing ← find_active_credential installation_id
    elim existing [ none ↦ pure tt | some c ↦ revoke_credential c ]

  -- The new credential's token.
  unfoldable pub issue_credential : Text → M Text
  issue_credential installation_id = do
    secret ← generate_secret env
    id ← fresh_id env
    t ← now env
    save_credential (Credential.issue id installation_id (env.sha256_hex secret) t)
    pure (format_opaque_token id secret)

  -- the rest of the callback
  unfoldable pub consume_enrollment :
      Text → Installation → InstallationEnrollment → M EnrollmentOutcome
  consume_enrollment installation_id i e = do
    consume e
    i' ← activate_if_initial i e
    revoke_active_credential installation_id
    credential ← issue_credential installation_id
    pure (record {
      installation_id = installation_id;
      credential = credential;
      purpose = e.purpose;
      resulting_status = i'.status;
    })

  unfoldable pub enroll_locked : OpaqueToken → Text → M EnrollmentOutcome
  enroll_locked parsed installation_id = do
    checked ← check_enrollment parsed installation_id
    consume_enrollment installation_id checked.0 checked.1

  unfoldable pub enroll_installation : Text → Text → M EnrollInstallationResult
  enroll_installation enrollment_code correlation_id = do
    parsed ← or_throw (parse_opaque_token enrollment_code) enrollment_failed
    discovered ← or_throw (← find_enrollment parsed.id) enrollment_failed
    outcome ← transaction (enroll_locked parsed discovered.installation_id)
    record_audit env (consumed_event correlation_id outcome)
    pure (record { installation_id = outcome.installation_id; credential = outcome.credential })
