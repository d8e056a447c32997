-- ===== src/Installations/Installation.antt =====
-- libs/control-plane/installations/src/domain/installation.ts and installation-code.ts. Times are
-- milliseconds since 1970.
use pos_cloud.Common.{
  ℕ, not, ◌||◌, Option, none, some, ltb, if◌then◌else◌, length, Result, ok, err, and_then,
}
use pos_cloud.Common.Text.{Text, trim, matches_code}
use pos_cloud.Installations.Errors.{
  InstallationError, invalid_installation_code, invalid_installation_name,
  invalid_installation_status_transition,
}
use pos_cloud.Installations.Status.{
  InstallationStatus, pending, active, Platform, is_installation_admin_transition_allowed,
  same_status,
}

pub record Installation : Type 0 where
  pub id : Text
  pub customer_id : Text
  pub license_id : Text
  pub installation_code : Text
  pub name : Text
  pub platform : Platform
  pub status : InstallationStatus
  pub registered_at : Option ℕ
  pub created_at : ℕ
  pub updated_at : ℕ

pub record CreateInstallationInput : Type 0 where
  pub id : Text
  pub customer_id : Text
  pub license_id : Text
  pub installation_code : Text
  pub name : Text
  pub platform : Platform

-- `InstallationCode.create`
unfoldable pub create_code : (Text → Text) → Text → Result InstallationError Text
create_code to_upper_case raw =
    let normalized = to_upper_case (trim raw) in
    if matches_code 4 79 normalized then ok normalized else err invalid_installation_code

unfoldable pub validate_name : Text → Result InstallationError Text
validate_name raw =
    let normalized = trim raw in
    if ltb (length normalized) 1 || ltb 150 (length normalized)
    then err invalid_installation_name
    else ok normalized

-- `Installation.create`, at the reading of its clock
unfoldable pub create :
    (Text → Text) → CreateInstallationInput → ℕ → Result InstallationError Installation
create to_upper_case input now =
    and_then (create_code to_upper_case input.installation_code) λ code.
      and_then (validate_name input.name) λ name. ok (record {
        id = input.id;
        customer_id = input.customer_id;
        license_id = input.license_id;
        installation_code = code;
        name = name;
        platform = input.platform;
        status = pending;
        registered_at = none;
        created_at = now;
        updated_at = now;
      })

-- `Installation.changeStatus`
unfoldable pub change_status :
    InstallationStatus → ℕ → Installation → Result InstallationError Installation
change_status next now i =
    if is_installation_admin_transition_allowed i.status next
    then ok (record i { status = next; updated_at = now })
    else err (invalid_installation_status_transition i.status next)

-- `Installation.activate`
unfoldable pub activate : ℕ → Installation → Result InstallationError Installation
unfolding same_status
activate now i =
    if not (same_status i.status pending)
    then err (invalid_installation_status_transition i.status active)
    else ok (record i { status = active; registered_at = some now; updated_at = now })
