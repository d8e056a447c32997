-- ===== src/AccessManagement/Tests.antt =====
-- The theorems of access-management at concrete stores.
use native.Mathlib.Omega.{arith}
use pos_cloud.Common.{ℕ, zero, suc, ◌+◌, ◌≡◌, refl, true, false, none, some, ◌∷◌, [], ok, err, ◌↔◌}
use pos_cloud.Common.Text.{Text, text, ◌===◌, ===_refl, index_of, trim, trim_start}
use pos_cloud.Common.JsMap.{get, set, find, count}
use pos_cloud.Kernel.{contains, Env, World}
use pos_cloud.AccessManagement.Errors.{invalid_refresh_token}
use pos_cloud.AccessManagement.Email
use pos_cloud.AccessManagement.Email.{create_password, matches_email, is_domain, has_inner_dot}
use pos_cloud.AccessManagement.AdminUser
use pos_cloud.AccessManagement.AdminUser.{
  AdminUser, active, suspended, can_attempt_login, is_locked, record_failed_login,
  record_successful_login, validate_display_name,
}
use pos_cloud.AccessManagement.AdminSession
use pos_cloud.AccessManagement.AdminSession.{AdminSession}
use pos_cloud.AccessManagement.Store.{Db, Ports, is_active_of}
use pos_cloud.AccessManagement.Login.{
  LoginAdminCommand, LoginAdminResult, login_admin, login_found, attempt_login, reject_password,
  reject_unverified,
}
use pos_cloud.AccessManagement.Login.Outcome.{LogsIn, login-LogsIn}
use pos_cloud.AccessManagement.AdminSession.{is_revoked}
use pos_cloud.AccessManagement.Login.{logout_admin}
use pos_cloud.AccessManagement.Login.Logout.{logout_revokes}
use pos_cloud.Common.{◌⊎◌}
use pos_cloud.AccessManagement.Login.Lockout.{login_all, AreRefused, fifth_failure_locks}
use pos_cloud.AccessManagement.Refresh.{
  RefreshAdminSessionResult, parse_raw_refresh_token, rotate, refresh_locked, finish,
  refresh_admin_session,
}
use pos_cloud.AccessManagement.Refresh.Outcome.{IsGenuine, Refreshes, refresh-Refreshes}
use pos_cloud.AccessManagement.Refresh.Replay.{reuse_revokes_all}
use pos_cloud.AccessManagement.Bootstrap.{
  BootstrapFirstAdminCommand, BootstrapFirstAdminResult, assign_role_to_admin, build_user,
  bootstrap_first_admin,
}
use pos_cloud.AccessManagement.Bootstrap.Outcome.{Bootstraps, bootstrap-Bootstraps}
use pos_cloud.AccessManagement.Bootstrap.RoundTrip.{bootstrap_then_login}
use pos_cloud.AccessManagement.Permission.{Grants, resolve_effective_permissions}
use pos_cloud.AccessManagement.Guards.{
  Route, CurrentAdminPrincipal, forbidden, extract_bearer_token, admin_guards,
}
use pos_cloud.AccessManagement.Guards.Outcome.{
  is_open_route, IsAuthorized, admin_guards_iff, suspended_forbidden,
}
use pos_cloud.Installations.Auth.{split_spaces}

abbrev letters : ℕ → Text
letters zero = []
letters (suc n) = b'a' ∷ letters n

abbrev test_env : Env
test_env = record {
  clock = λ n. 1000 + n;
  next_id = λ n. b'a' ∷ letters n;
  next_secret = λ n. b'a' ∷ letters n;
  sha256_hex = λ s. s;
  hex_bytes = λ s. s;
  to_upper_case = λ s. s;
  to_lower_case = λ s. s;
  audit_accepts = λ e. true;
  ilike = contains;
}

abbrev test_ports : Ports
test_ports = record {
  env = test_env;
  hash_password = λ n p. p;
  verify_password = λ h p. h === p;
  issue_access_token = λ t user session. session;
  access_token_ttl_seconds = 60;
  refresh_token_ttl_seconds = 600;
}

abbrev test_user : AdminUser
test_user = record {
  id = text "U";
  email = text "a@b.c";
  display_name = text "Ada";
  password_hash = text "secret";
  status = active;
  failed_login_attempts = 4;
  locked_until = none;
  last_login_at = none;
  created_at = 1;
  updated_at = 1;
}

abbrev test_session : AdminSession
test_session = record {
  id = text "S";
  admin_user_id = text "U";
  refresh_token_hash = text "s";
  expires_at = 9000;
  revoked_at = none;
  replaced_by_session_id = none;
  created_at = 1;
  last_used_at = 1;
}

abbrev test_world : World Db
test_world = record {
  db = record {
    users = (text "U", test_user) ∷ [];
    sessions = (text "S", test_session) ∷ [];
    roles = [];
    verifications = 0;
  };
  ticks = 0;
  ids = 0;
  secrets = 0;
  trail = [];
}

abbrev login : Text → LoginAdminCommand
login password = record { email = text "a@b.c"; password = password }

login-LogsIn_example :
    LogsIn test_ports
      (login (text "secret"))
      test_world
      (login_admin test_ports (login (text "secret")) test_world)
login-LogsIn_example = login-LogsIn test_ports (login (text "secret")) test_world

abbrev new_world : World Db
new_world = record test_world {
  db = record (test_world.db) {
    users = (text "U", record test_user { failed_login_attempts = 3 }) ∷ [];
  };
}

abbrev failed_world : World Db
failed_world =
    (login_admin test_ports (login (text "wrong"))
      (login_all test_ports (text "a@b.c") (login (text "no") ∷ []) new_world)).1

fifth_failure_locks_example :
    AreRefused test_ports
      (text "a@b.c")
      (login (text "secret") ∷ (login (text "secret") ∷ []))
      failed_world
unfolding get set find ◌===◌ index_of trim trim_start Email.create matches_email is_domain
    has_inner_dot login_admin login_found attempt_login reject_password can_attempt_login is_locked
    record_failed_login reject_unverified
fifth_failure_locks_example =
    fifth_failure_locks test_ports (text "a@b.c") (login (text "no") ∷ []) (login (text "wrong"))
      (login (text "secret") ∷ (login (text "secret") ∷ []))
      (record test_user { failed_login_attempts = 3 }) new_world (refl, refl, tt) refl refl refl
      refl ((refl, refl), tt) (refl, refl) (refl, (refl, tt)) (omega arith, (omega arith, tt))

refresh-Refreshes_example :
    Refreshes test_ports
      (text "S.s")
      test_world
      (refresh_admin_session test_ports (text "S.s") test_world)
unfolding get ◌===◌
refresh-Refreshes_example =
    refresh-Refreshes test_ports (text "S.s") test_world refl (refl, refl, tt)

abbrev refreshed : RefreshAdminSessionResult
refreshed = record {
  access_token = text "a";
  expires_in_seconds = 60;
  session_id = text "a";
  secret = text "a";
}

abbrev refreshed_world : World Db
refreshed_world = (refresh_admin_session test_ports (text "S.s") test_world).1

reuse_revokes_all_example :
    (s : AdminSession) × IsGenuine test_ports (text "S.s") test_world s
    × ((refresh_admin_session test_ports (text "S.s") refreshed_world).0
        ≡ err invalid_refresh_token)
    × (count
          (is_active_of s.admin_user_id)
          (refresh_admin_session test_ports (text "S.s") refreshed_world).1.db.sessions
        ≡ 0)
unfolding get set ◌===◌ index_of parse_raw_refresh_token rotate refresh_locked finish
    refresh_admin_session AdminSession.create AdminSession.revoke
reuse_revokes_all_example =
    reuse_revokes_all test_ports (text "S.s") test_world refreshed refreshed_world refl
      (refl, refl, tt) refl

abbrev empty_world : World Db
empty_world = record test_world {
  db = record { users = []; sessions = []; roles = []; verifications = 0 };
}

abbrev first_admin : BootstrapFirstAdminCommand
first_admin = record {
  email = text "a@b.c";
  password = text "correct horse";
  display_name = text "Ada";
}

bootstrap-Bootstraps_example :
    Bootstraps test_ports first_admin empty_world
      (bootstrap_first_admin test_ports first_admin empty_world)
bootstrap-Bootstraps_example = bootstrap-Bootstraps test_ports first_admin empty_world

abbrev created : BootstrapFirstAdminResult
created = record { id = text "a"; email = text "a@b.c" }

abbrev bootstrapped_world : World Db
bootstrapped_world = (bootstrap_first_admin test_ports first_admin empty_world).1

bootstrap_then_login_example :
    (l : LoginAdminResult) × ((login_admin test_ports
        (record { email = text "a@b.c"; password = text "correct horse" })
        bootstrapped_world).0
      ≡ ok l)
    × (l.user_id ≡ text "a")
    × (l.user_email ≡ text "a@b.c")
unfolding set index_of trim trim_start Email.create create_password matches_email is_domain
    has_inner_dot AdminUser.create validate_display_name build_user assign_role_to_admin
    bootstrap_first_admin
bootstrap_then_login_example =
    bootstrap_then_login test_ports first_admin empty_world bootstrapped_world created
      (λ n p. ===_refl p) refl

abbrev test_route : Route
test_route = record {
  is_public = false;
  is_authenticated_only = false;
  is_installation_enrollment = false;
  is_installation_authenticated = false;
  required_permissions = some (text "audit.read" ∷ []);
}

abbrev test_admin : CurrentAdminPrincipal
test_admin = record { admin_user_id = text "U"; session_id = text "S" }

admin_guards_iff_example :
    ((admin_guards
          (λ token. some test_admin)
          (λ id. some (text "audit.read" ∷ []))
          test_route
          (some (text "Bearer t"))
        ≡ ok none)
      ↔ (is_open_route test_route ≡ true))
    × ((admin : CurrentAdminPrincipal)
        → (admin_guards
              (λ token. some test_admin)
              (λ id. some (text "audit.read" ∷ []))
              test_route
              (some (text "Bearer t"))
            ≡ ok (some admin))
          ↔ ((is_open_route test_route ≡ false)
              × IsAuthorized
                  (λ token. some test_admin)
                  (λ id. some (text "audit.read" ∷ []))
                  test_route
                  (some (text "Bearer t"))
                  admin))
admin_guards_iff_example =
    admin_guards_iff (λ token. some test_admin) (λ id. some (text "audit.read" ∷ [])) test_route
      (some (text "Bearer t"))

abbrev test_grants : Grants
test_grants = record {
  admin_user_roles = (text "U", text "PLATFORM_ADMIN") ∷ [];
  role_permissions = (text "PLATFORM_ADMIN", text "audit.read") ∷ [];
}

suspended_forbidden_example :
    admin_guards
      (λ token. some test_admin)
      (resolve_effective_permissions test_grants
        ((text "U", record test_user { status = suspended }) ∷ []))
      test_route
      (some (text "Bearer t"))
    ≡ err forbidden
unfolding get ◌===◌ split_spaces extract_bearer_token
suspended_forbidden_example =
    suspended_forbidden test_grants ((text "U", record test_user { status = suspended }) ∷ [])
      (λ token. some test_admin) test_route (some (text "Bearer t")) test_admin
      (record test_user { status = suspended }) (text "t") refl refl refl refl refl refl

logout_revokes_example :
    ((logout_admin test_ports (some (text "S.x")) test_world).0 ≡ ok tt)
    × ((s' : AdminSession) × (get
            (text "S")
            (logout_admin test_ports (some (text "S.x")) test_world).1.db.sessions
          ≡ some s')
        × (is_revoked s' ≡ true)
        × ((is_revoked test_session ≡ false) ⊎ (s' ≡ test_session)))
unfolding get ◌===◌ index_of
logout_revokes_example =
    logout_revokes test_ports (text "S.x") test_world 1 test_session (refl, refl, tt) refl
      (λ e. omega (arith, e)) refl
