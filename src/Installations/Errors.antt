-- ===== src/Installations/Errors.antt =====
-- libs/control-plane/installations/src/domain/installation.errors.ts: one constructor for each
-- class, and the class that it extends. The texts of the messages are left out.
use pos_cloud.Common.{ℕ}
use pos_cloud.Kernel.{ErrorKind, not_found, conflict, validation, unauthorized, forbidden}
use pos_cloud.Installations.Status.{InstallationStatus, InstallationEnrollmentPurpose}

-- The classes of installation.errors.ts.
pub data InstallationError : Type 0 where
  invalid_installation_code invalid_installation_name : InstallationError
  invalid_installation_status_transition :
      InstallationStatus → InstallationStatus → InstallationError
  installation_not_found installation_code_already_exists : InstallationError
  installation_customer_not_found installation_customer_not_active : InstallationError
  installation_license_not_found license_customer_mismatch license_not_usable : InstallationError
  license_capacity_exceeded : ℕ → InstallationError
  installation_not_eligible_for_enrollment :
      InstallationStatus → InstallationEnrollmentPurpose → InstallationError
  enrollment_failed installation_credential_invalid : InstallationError
  installation_suspended installation_decommissioned : InstallationError

-- The base class of each error class.
abbrev pub error_kind : InstallationError → ErrorKind
error_kind invalid_installation_code = validation
error_kind invalid_installation_name = validation
error_kind (invalid_installation_status_transition _ _) = validation
error_kind installation_not_found = not_found
error_kind installation_code_already_exists = conflict
error_kind installation_customer_not_found = not_found
error_kind installation_customer_not_active = conflict
error_kind installation_license_not_found = not_found
error_kind license_customer_mismatch = conflict
error_kind license_not_usable = conflict
error_kind (license_capacity_exceeded _) = conflict
error_kind (installation_not_eligible_for_enrollment _ _) = conflict
error_kind enrollment_failed = unauthorized
error_kind installation_credential_invalid = unauthorized
error_kind installation_suspended = forbidden
error_kind installation_decommissioned = forbidden
