-- ===== src/AccessManagement/Errors.antt =====
-- The error classes of libs/control-plane/access-management/src/domain.
use pos_cloud.Kernel.{ErrorKind, not_found, conflict, validation, unauthorized}

pub data AdminError : Type 0 where
  invalid_admin_email invalid_admin_display_name invalid_admin_password : AdminError
  admin_user_not_found admin_email_already_exists invalid_admin_credentials : AdminError
  admin_bootstrap_already_completed invalid_refresh_token : AdminError

-- The base class of each error class.
abbrev pub error_kind : AdminError → ErrorKind
error_kind invalid_admin_email = validation
error_kind invalid_admin_display_name = validation
error_kind invalid_admin_password = validation
error_kind admin_user_not_found = not_found
error_kind admin_email_already_exists = conflict
error_kind invalid_admin_credentials = unauthorized
error_kind admin_bootstrap_already_completed = conflict
error_kind invalid_refresh_token = unauthorized
