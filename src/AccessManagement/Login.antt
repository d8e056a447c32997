-- ===== src/AccessManagement/Login.antt =====
-- application/use-cases/login-admin.use-case.ts and logout-admin.use-case.ts
pub mod Failure
pub mod Outcome
pub mod Lockout
pub mod Logout
use pos_cloud.Common.{
  ℕ, suc, ◌+◌, ◌*◌, Bool, true, false, not, ◌||◌, Option, none, some, List, [], ◌∷◌, ok, err,
  Action, ◌>>=◌, ◌>>◌, pure, or_throw, throw, throw_if, lift, gets, if◌then◌else◌, take, ◌==◌,
}
use pos_cloud.Common.Text.{Text, index_of}
use pos_cloud.Kernel.{Env, World, now, fresh_id, generate_secret}
use pos_cloud.AccessManagement.Errors.{AdminError, invalid_admin_credentials}
use pos_cloud.AccessManagement.Email
use pos_cloud.AccessManagement.AdminUser.{
  AdminUser, AdminUserStatus, can_attempt_login, record_failed_login, record_successful_login,
}
use pos_cloud.AccessManagement.AdminSession
use pos_cloud.AccessManagement.AdminSession.{AdminSession, is_revoked}
use pos_cloud.AccessManagement.Store.{
  Db, Ports, M, find_user_by_email, save_user, find_session, save_session,
}

pub record LoginAdminCommand : Type 0 where
  pub email : Text
  pub password : Text

pub record LoginAdminResult : Type 0 where
  pub access_token : Text
  pub expires_in_seconds : ℕ
  pub session_id : Text
  pub secret : Text
  pub user_id : Text
  pub user_email : Text
  pub display_name : Text
  pub status : AdminUserStatus

-- one run of the password hash
abbrev pub run_hasher : M (Unit {0})
run_hasher w = (ok tt, record w { db = record (w.db) { verifications = suc w.db.verifications } })

module _ (ports : Ports) where
  open ports use {
    env, verify_password, issue_access_token, access_token_ttl_seconds, refresh_token_ttl_seconds,
  }

  -- `await passwordHasher.verifyDummy(…); throw …`
  unfoldable pub reject_unverified : {A : Type 0} → M A
  reject_unverified = do run_hasher; throw invalid_admin_credentials

  unfoldable pub reject_password : {A : Type 0} → AdminUser → M A
  reject_password user = do
    t ← now env
    save_user (record_failed_login t user)
    throw invalid_admin_credentials

  unfoldable pub open_session : AdminUser → ℕ → M LoginAdminResult
  open_session user started = do
    t ← now env
    let user' = record_successful_login t user
    save_user user'
    id ← fresh_id env
    secret ← generate_secret env
    c ← now env
    save_session (
        AdminSession.create
          (record {
            id = id;
            admin_user_id = user.id;
            refresh_token_hash = env.sha256_hex secret;
            expires_at = started + refresh_token_ttl_seconds * 1000;
          })
          c)
    signed ← gets (λ w. w.ticks)
    pure (record {
      access_token = issue_access_token signed user.id id;
      expires_in_seconds = access_token_ttl_seconds;
      session_id = id;
      secret = secret;
      user_id = user.id;
      user_email = user.email;
      display_name = user.display_name;
      status = user.status;
    })

  unfoldable pub attempt_login : Text → AdminUser → ℕ → M LoginAdminResult
  attempt_login password user started = do
    run_hasher
    if verify_password user.password_hash password
        then open_session user started
        else reject_password user

  unfoldable pub login_found : Text → Option AdminUser → ℕ → M LoginAdminResult
  login_found password none started = reject_unverified
  login_found password (some user) started =
      if not (can_attempt_login started user)
      then reject_unverified
      else attempt_login password user started

  unfoldable pub login_admin : LoginAdminCommand → M LoginAdminResult
  login_admin command = do
    email ← lift (Email.create env.to_lower_case command.email)
    user ← find_user_by_email email
    started ← now env
    login_found command.password user started

  unfoldable pub revoke_found : Option AdminSession → M (Unit {0})
  revoke_found none = pure tt
  revoke_found (some s) =
      if is_revoked s
      then pure tt
      else (do t ← now env; save_session (AdminSession.revoke t none s))

  -- The part of the cookie before its first dot, unless that is missing or the first code unit.
  unfoldable pub logout_admin : Option Text → M (Unit {0})
  logout_admin none = pure tt
  logout_admin (some raw) = elim (index_of b'.' raw) [
    | none ↦ pure tt
    | some separator ↦
        if separator == 0
        then pure tt
        else (do session ← find_session (take separator raw); revoke_found session)
  ]
