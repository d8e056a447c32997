-- ===== src/AccessManagement/AdminUser.antt =====
-- libs/control-plane/access-management/src/domain/admin-user.ts. Times are milliseconds since 1970.
use pos_cloud.Common.{
  ℕ, ◌+◌, ◌*◌, Bool, true, false, not, ◌&&◌, ◌||◌, Option, none, some, Result, ok, err, and_then,
  length, ltb, leb, if◌then◌else◌,
}
use pos_cloud.Common.Text.{Text, trim}
use pos_cloud.AccessManagement.Errors.{AdminError, invalid_admin_display_name}
use pos_cloud.AccessManagement.Email

abbrev pub max_failed_login_attempts : ℕ
max_failed_login_attempts = 5

abbrev pub lock_duration_ms : ℕ
lock_duration_ms = 15 * 60 * 1000

pub data AdminUserStatus : Type 0 where
  active suspended : AdminUserStatus

pub record AdminUser : Type 0 where
  pub id : Text
  pub email : Text
  pub display_name : Text
  pub password_hash : Text
  pub status : AdminUserStatus
  pub failed_login_attempts : ℕ
  pub locked_until : Option ℕ
  pub last_login_at : Option ℕ
  pub created_at : ℕ
  pub updated_at : ℕ

pub record CreateAdminUserInput : Type 0 where
  pub id : Text
  pub email : Text
  pub display_name : Text
  pub password_hash : Text

unfoldable pub validate_display_name : Text → Result AdminError Text
validate_display_name raw =
    let normalized = trim raw in
    if ltb (length normalized) 1 || ltb 150 (length normalized)
    then err invalid_admin_display_name
    else ok normalized

-- `AdminUser.create`, at the reading of its clock
unfoldable pub create : (Text → Text) → CreateAdminUserInput → ℕ → Result AdminError AdminUser
create to_lower_case input now = and_then (Email.create to_lower_case input.email) λ email.
    and_then (validate_display_name input.display_name) λ display_name. ok (record {
      id = input.id;
      email = email;
      display_name = display_name;
      password_hash = input.password_hash;
      status = active;
      failed_login_attempts = 0;
      locked_until = none;
      last_login_at = none;
      created_at = now;
      updated_at = now;
    })

abbrev pub is_later : ℕ → Option ℕ → Bool
is_later now none = false
is_later now (some t) = ltb now t

unfoldable pub is_locked : ℕ → AdminUser → Bool
is_locked now u = is_later now u.locked_until

-- `status === AdminUserStatus.ACTIVE`
abbrev pub is_active : AdminUserStatus → Bool
is_active active = true
is_active suspended = false

unfoldable pub can_attempt_login : ℕ → AdminUser → Bool
unfolding is_locked
can_attempt_login now u = is_active u.status && not (is_locked now u)

unfoldable pub record_failed_login : ℕ → AdminUser → AdminUser
record_failed_login now u =
    let attempts = u.failed_login_attempts + 1 in
    record u {
      failed_login_attempts = attempts;
      locked_until =
          if leb max_failed_login_attempts attempts
          then some (now + lock_duration_ms)
          else u.locked_until;
      updated_at = now;
    }

unfoldable pub record_successful_login : ℕ → AdminUser → AdminUser
record_successful_login now u = record u {
  failed_login_attempts = 0;
  locked_until = none;
  last_login_at = some now;
  updated_at = now;
}
