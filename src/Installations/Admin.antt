-- ===== src/Installations/Admin.antt =====
-- application/use-cases/change-installation-status.use-case.ts and
-- revoke-installation-credential.use-case.ts
pub mod Outcome
use pos_cloud.Common.{
  ℕ, Bool, true, false, not, Option, none, some, List, [], ◌∷◌, ok, err, Action, ◌>>=◌, ◌>>◌, pure,
  or_throw, throw_if, lift,
}
use pos_cloud.Common.Text.{Text, text}
use pos_cloud.Kernel.{
  Env, World, AuditActorContext, AuditEventInput, string_value, now, record_audit,
}
use pos_cloud.Installations.Status.{
  InstallationStatus, is_installation_admin_transition_allowed, status_text,
}
use pos_cloud.Installations.Errors.{
  InstallationError, installation_not_found, invalid_installation_status_transition,
}
use pos_cloud.Installations.Installation.{Installation, change_status}
use pos_cloud.Installations.Credential.{InstallationCredential}
use pos_cloud.Installations.Enroll.{revoke_credential}
use pos_cloud.Installations.Store.{
  Db, Ports, M, find_installation, save_installation, find_active_credential, save_credential,
}

abbrev pub status_changed_event :
    AuditActorContext → Text → InstallationStatus → InstallationStatus → AuditEventInput
status_changed_event actor id from to = record {
  actor = actor;
  action = text "installation.status.changed";
  resource_type = text "Installation";
  resource_id = id;
  metadata =
      (text "from", string_value (status_text from))
      ∷ (text "to", string_value (status_text to))
      ∷ [];
}

abbrev pub credential_revoked_event : AuditActorContext → Text → AuditEventInput
credential_revoked_event actor id = record {
  actor = actor;
  action = text "installation.credential.revoked";
  resource_type = text "Installation";
  resource_id = id;
  metadata = [];
}

module _ (ports : Ports) where
  open ports use {env}

  -- `installation.changeStatus(next, clock)`, which reads the clock if the transition is allowed
  unfoldable pub apply_status : InstallationStatus → Installation → M Installation
  apply_status next i = do
    throw_if (not (is_installation_admin_transition_allowed i.status next))
        (invalid_installation_status_transition i.status next)
    t ← now env
    lift (change_status next t i)

  unfoldable pub change_installation_status :
      Text → InstallationStatus → AuditActorContext → M Installation
  change_installation_status id status actor = do
    i ← or_throw (← find_installation id) installation_not_found
    i' ← apply_status status i
    save_installation i'
    record_audit env (status_changed_event actor i'.id i.status i'.status)
    pure i'

  unfoldable pub revoke_found :
      Text → AuditActorContext → Option InstallationCredential → M (Unit {0})
  revoke_found id actor none = pure tt
  revoke_found id actor (some c) = do
    revoke_credential ports c
    record_audit env (credential_revoked_event actor id)

  unfoldable pub revoke_installation_credential : Text → AuditActorContext → M (Unit {0})
  revoke_installation_credential id actor = do
    i ← or_throw (← find_installation id) installation_not_found
    found ← find_active_credential id
    revoke_found id actor found
