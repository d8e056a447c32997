-- ===== src/AccessManagement/Bootstrap.antt =====
-- application/use-cases/bootstrap-first-admin.use-case.ts, assign-role-to-admin.use-case.ts and
-- get-admin-profile.use-case.ts
pub mod Outcome
pub mod RoundTrip
use pos_cloud.Common.{
  ℕ, suc, Bool, true, false, Option, none, some, List, [], ◌∷◌, ok, err, Action, ◌>>=◌, ◌>>◌, pure,
  or_throw, throw_if, lift, if◌then◌else◌,
}
use pos_cloud.Common.Text.{Text, text}
use pos_cloud.Kernel.{Env, World, now, fresh_id}
use pos_cloud.AccessManagement.Errors.{AdminError, admin_bootstrap_already_completed}
use pos_cloud.AccessManagement.Email.{create_password}
use pos_cloud.AccessManagement.AdminUser
use pos_cloud.AccessManagement.AdminUser.{AdminUser}
use pos_cloud.AccessManagement.Store.{Db, Ports, M, exists_any, save_user, assign_role}

pub record BootstrapFirstAdminCommand : Type 0 where
  pub email : Text
  pub password : Text
  pub display_name : Text

pub record BootstrapFirstAdminResult : Type 0 where
  pub id : Text
  pub email : Text

abbrev pub platform_admin : Text
platform_admin = text "PLATFORM_ADMIN"

module _ (ports : Ports) where
  open ports use {env, hash_password}

  -- `passwordHasher.hash`, with a new salt
  abbrev pub salted_hash : Text → M Text
  salted_hash password w =
      (ok (hash_password w.secrets password), record w { secrets = suc w.secrets })

  -- `AssignRoleToAdminUseCase.execute`
  unfoldable pub assign_role_to_admin : Text → Text → M (Unit {0})
  assign_role_to_admin admin_user_id role_code = do t ← now env; assign_role admin_user_id role_code

  unfoldable pub build_user : BootstrapFirstAdminCommand → M AdminUser
  build_user command = do
    password ← lift (create_password command.password)
    password_hash ← salted_hash password
    id ← fresh_id env
    t ← now env
    lift (
        AdminUser.create env.to_lower_case
          (record {
            id = id;
            email = command.email;
            display_name = command.display_name;
            password_hash = password_hash;
          })
          t)

  unfoldable pub bootstrap_first_admin : BootstrapFirstAdminCommand → M BootstrapFirstAdminResult
  bootstrap_first_admin command = do
    any ← exists_any
    throw_if any admin_bootstrap_already_completed
    user ← build_user command
    save_user user
    assign_role_to_admin user.id platform_admin
    pure (record { id = user.id; email = user.email })
