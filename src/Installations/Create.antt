-- ===== src/Installations/Create.antt =====
-- application/use-cases/create-installation.use-case.ts
pub mod Outcome
use pos_cloud.Common.{
  ℕ, Bool, true, false, not, Option, none, some, List, [], ◌∷◌, ok, err, Action, ◌>>=◌, ◌>>◌, pure,
  or_throw, throw_if, lift, is_some, leb,
}
use pos_cloud.Common.Text.{Text, text, ◌===◌}
use pos_cloud.Kernel.{
  Env, World, AuditActorContext, AuditEventInput, now, fresh_id, record_audit, transaction,
}
use pos_cloud.Installations.Status.{Platform}
use pos_cloud.Installations.Errors.{
  InstallationError, installation_code_already_exists, installation_customer_not_active,
  installation_customer_not_found, installation_license_not_found, license_capacity_exceeded,
  license_customer_mismatch, license_not_usable,
}
use pos_cloud.Installations.Installation
use pos_cloud.Installations.Installation.{Installation, create_code}
use pos_cloud.Installations.Store.{
  Db, Ports, M, LicenseSummary, find_installation_by_code, save_installation,
  count_non_decommissioned_by_license,
}

pub record CreateInstallationCommand : Type 0 where
  pub customer_id : Text
  pub license_id : Text
  pub installation_code : Text
  pub name : Text
  pub platform : Platform

abbrev pub created_event : AuditActorContext → Installation → AuditEventInput
created_event actor i = record {
  actor = actor;
  action = text "installation.created";
  resource_type = text "Installation";
  resource_id = i.id;
  metadata = [];
}

-- the callback of `runExclusiveForLicense`
unfoldable pub save_within_capacity :
    CreateInstallationCommand → LicenseSummary → Text → Installation → M (Unit {0})
save_within_capacity command license code i = do
  current ← count_non_decommissioned_by_license command.license_id
  throw_if (leb license.max_installations current)
      (license_capacity_exceeded license.max_installations)
  existing ← find_installation_by_code code
  throw_if (is_some existing) installation_code_already_exists
  save_installation i

module _ (ports : Ports) where
  open ports use {env, find_customer_summary, find_license_summary}

  -- steps 1 to 5
  unfoldable pub check_references : CreateInstallationCommand → M LicenseSummary
  check_references command = do
    customer ← or_throw (find_customer_summary command.customer_id) installation_customer_not_found
    throw_if (not customer.active) installation_customer_not_active
    license ← or_throw (find_license_summary command.license_id) installation_license_not_found
    throw_if (not (license.customer_id === command.customer_id)) license_customer_mismatch
    throw_if (not license.usable) license_not_usable
    pure license

  unfoldable pub build_installation : CreateInstallationCommand → M Installation
  build_installation command = do
    id ← fresh_id env
    t ← now env
    lift (
        Installation.create env.to_upper_case
          (record {
            id = id;
            customer_id = command.customer_id;
            license_id = command.license_id;
            installation_code = command.installation_code;
            name = command.name;
            platform = command.platform;
          })
          t)

  unfoldable pub create_installation :
      CreateInstallationCommand → AuditActorContext → M Installation
  create_installation command actor = do
    license ← check_references command
    code ← lift (create_code env.to_upper_case command.installation_code)
    i ← build_installation command
    transaction (save_within_capacity command license code i)
    record_audit env (created_event actor i)
    pure i
