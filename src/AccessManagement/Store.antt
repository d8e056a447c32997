-- ===== src/AccessManagement/Store.antt =====
-- The stores of access-management behind its ports, as the adapters under
-- libs/control-plane/access-management/src/test-support keep them, and what the ports parametrise.
use pos_cloud.Common.{
  ℕ, Bool, true, false, not, ◌&&◌, Option, none, List, [], ◌∷◌, ◌++◌, ok, Action, if◌then◌else◌,
  is_some,
}
use pos_cloud.Common.Text.{Text, ◌===◌}
use pos_cloud.Common.JsMap.{JsMap, get, set, find, map_values}
use pos_cloud.Kernel.{Env, World}
use pos_cloud.AccessManagement.Errors.{AdminError}
use pos_cloud.AccessManagement.AdminUser.{AdminUser}
use pos_cloud.AccessManagement.AdminSession.{AdminSession, is_revoked}
use pos_cloud.AccessManagement.AdminSession

-- `verifications` counts the runs of the password hash, real or dummy.
pub record Db : Type 0 where
  pub users : JsMap AdminUser
  pub sessions : JsMap AdminSession
  pub roles : JsMap Text
  pub verifications : ℕ

-- The hasher salts its n-th hash; the access token is signed at a time.
pub record Ports : Type 0 where
  pub env : Env
  pub hash_password : ℕ → Text → Text
  pub verify_password : Text → Text → Bool
  pub issue_access_token : ℕ → Text → Text → Text
  pub access_token_ttl_seconds : ℕ
  pub refresh_token_ttl_seconds : ℕ

abbrev pub M : Type 0 → Type 0
M A = Action (World Db) AdminError A

-- InMemoryAdminUserRepository

abbrev pub find_user : Text → M (Option AdminUser)
find_user id w = (ok (get id w.db.users), w)

abbrev pub has_email : Text → AdminUser → Bool
has_email email u = u.email === email

abbrev pub find_user_by_email : Text → M (Option AdminUser)
find_user_by_email email w = (ok (find (has_email email) w.db.users), w)

abbrev pub save_user : AdminUser → M (Unit {0})
save_user u w = (ok tt, record w { db = record (w.db) { users = set u.id u w.db.users } })

abbrev pub is_nonempty : {A : Type 0} → List A → Bool
is_nonempty [] = false
is_nonempty (x ∷ xs) = true

abbrev pub exists_any : M Bool
exists_any w = (ok (is_nonempty w.db.users), w)

-- InMemoryAdminSessionStore

-- An id that is not a UUID finds nothing, as in this repository. The uuid column of PostgreSQL
-- would raise an error for it.
abbrev pub find_session : Text → M (Option AdminSession)
find_session id w = (ok (get id w.db.sessions), w)

abbrev pub save_session : AdminSession → M (Unit {0})
save_session s w = (ok tt, record w { db = record (w.db) { sessions = set s.id s w.db.sessions } })

abbrev pub is_active_of : Text → AdminSession → Bool
is_active_of admin_user_id s = s.admin_user_id === admin_user_id && not (is_revoked s)

unfoldable pub revoke_if_active_of : Text → ℕ → AdminSession → AdminSession
revoke_if_active_of admin_user_id revoked_at s =
    if is_active_of admin_user_id s then AdminSession.revoke revoked_at none s else s

abbrev pub revoke_all_active_for_user : Text → ℕ → M (Unit {0})
revoke_all_active_for_user admin_user_id revoked_at w = (
  ok tt,
  record w {
    db = record (w.db) {
      sessions = map_values (revoke_if_active_of admin_user_id revoked_at) w.db.sessions;
    };
  },
)

-- InMemoryAdminRoleRepository: the key of an assignment is `${adminUserId}:${roleCode}`.

abbrev pub assignment_key : Text → Text → Text
assignment_key admin_user_id role_code = admin_user_id ++ b':' ∷ role_code

unfoldable pub assign : Text → Text → JsMap Text → JsMap Text
assign admin_user_id role_code roles =
    if is_some (get (assignment_key admin_user_id role_code) roles)
    then roles
    else set (assignment_key admin_user_id role_code) role_code roles

abbrev pub assign_role : Text → Text → M (Unit {0})
assign_role admin_user_id role_code w =
    (ok tt, record w { db = record (w.db) { roles = assign admin_user_id role_code w.db.roles } })
