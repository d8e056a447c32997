-- ===== src/AccessManagement/Bootstrap/Outcome.antt =====
-- What the bootstrap has done, by how it ended.
use pos_cloud.Common.{
  suc, ◌≤◌, ◌≡◌, refl, ◌≢◌, ◌⊎◌, inl, inr, true, false, none, ◌∷◌, [], arith, subst, sym, Result,
  ok, err, Result-cases, ◌↔◌, length,
}
use pos_cloud.Common.Text.{Text}
use pos_cloud.Common.JsMap.{JsMap, get, set}
use pos_cloud.Common.JsMap.Laws.{get-set_self}
use pos_cloud.Kernel.{World}
use pos_cloud.AccessManagement.Errors.{AdminError, admin_bootstrap_already_completed}
use pos_cloud.AccessManagement.Email
use pos_cloud.AccessManagement.Email.{create_password}
use pos_cloud.AccessManagement.AdminUser
use pos_cloud.AccessManagement.AdminUser.{AdminUser, active, can_attempt_login, is_locked}
use pos_cloud.AccessManagement.Store.{Db, Ports, is_nonempty, assign, assignment_key}
use pos_cloud.AccessManagement.Bootstrap.{
  BootstrapFirstAdminCommand, BootstrapFirstAdminResult, platform_admin, assign_role_to_admin,
  build_user, bootstrap_first_admin,
}

module _ (ports : Ports) (command : BootstrapFirstAdminCommand) (w : World Db) where
  -- The first administrator.
  pub record IsFirst (w' : World Db) (r : BootstrapFirstAdminResult) : Type 0 where
    pub user : AdminUser
    pub only : w'.db.users ≡ (r.id, user) ∷ []
    pub id : user.id ≡ r.id
    pub email : user.email ≡ r.email
    pub normalized : Email.create ports.env.to_lower_case command.email ≡ ok r.email
    pub status : user.status ≡ active
    pub unlocked : user.locked_until ≡ none
    pub long : (12 ≤ length command.password) × (length command.password ≤ 256)
    pub hashed : user.password_hash ≡ ports.hash_password w.secrets command.password
    pub role : get (assignment_key r.id platform_admin) w'.db.roles ≢ none

  abbrev pub Bootstraps : Result AdminError BootstrapFirstAdminResult × World Db → Type 0
  Bootstraps (ok r, w') = (w.db.users ≡ []) × IsFirst w' r
  Bootstraps (err f, w') =
      (w'.db ≡ w.db) × ((f ≡ admin_bootstrap_already_completed) ↔ (w.db.users ≢ []))

  again :
      is_nonempty w.db.users ≡ true
      → bootstrap_first_admin ports command w ≡ (err admin_bootstrap_already_completed, w)
  unfolding bootstrap_first_admin
  again h = ground arith

  abbrev built : World Db
  built = (build_user ports command w).1

  refused :
      (f : AdminError)
      → is_nonempty w.db.users ≡ false
      → (build_user ports command w).0 ≡ err f
      → (bootstrap_first_admin ports command w ≡ (err f, built))
        × (built.db ≡ w.db)
        × (f ≢ admin_bootstrap_already_completed)
  unfolding bootstrap_first_admin build_user create_password AdminUser.create
      AdminUser.validate_display_name Email.create
  refused f h k = ground arith

  module _ (u : AdminUser) where
    built_sound :
        (build_user ports command w).0 ≡ ok u
        → (Email.create ports.env.to_lower_case command.email ≡ ok u.email)
          × (u.id ≡ ports.env.next_id w.ids)
          × (u.status ≡ active)
          × (u.locked_until ≡ none)
          × (12 ≤ length command.password)
          × (length command.password ≤ 256)
          × (u.password_hash ≡ ports.hash_password w.secrets command.password)
          × (built.db ≡ w.db)
    unfolding build_user create_password AdminUser.create
    built_sound h = ground arith

    done :
        w.db.users ≡ []
        → (build_user ports command w).0 ≡ ok u
        → built.db ≡ w.db
        → bootstrap_first_admin ports command w ≡ (
          ok (record { id = u.id; email = u.email }),
          record built {
            ticks = suc built.ticks;
            db = record (w.db) {
              users = (u.id, u) ∷ [];
              roles = assign u.id platform_admin w.db.roles;
            };
          },
        )
    unfolding bootstrap_first_admin assign_role_to_admin set
    done h k l = ground arith

  assigned : (x y : Text) (roles : JsMap Text) → get (assignment_key x y) (assign x y roles) ≢ none
  unfolding assign
  assigned x y roles e = ground (arith, get-set_self (assignment_key x y) y roles)

  nonempty_cases :
      (m : JsMap AdminUser)
      → ((is_nonempty m ≡ true) × (m ≢ [])) ⊎ ((is_nonempty m ≡ false) × (m ≡ []))
  nonempty_cases [] = inr (refl, refl)
  nonempty_cases (x ∷ m) = inl (refl, λ e. cc)

  -- How a bootstrap ends. It fails with the stores unchanged, with
  -- `admin_bootstrap_already_completed` exactly if there is an administrator; or there was none, and the only
  -- one is now an active, unlocked account with the normalized email, the salted hash of a
  -- password of 12 to 256 code units and the role PLATFORM_ADMIN.
  pub bootstrap-Bootstraps : Bootstraps (bootstrap_first_admin ports command w)
  bootstrap-Bootstraps = elim (nonempty_cases w.db.users) [
    | inl (h, filled) ↦ subst Bootstraps (sym (again h)) (refl, (λ e. filled, λ e. refl))
    | inr (h, empty) ↦ elim (Result-cases (build_user ports command w).0) [
      | inr (f, k) ↦
          let (e, same, other) = refused f h k in
          subst Bootstraps (sym e) (same, (λ q. absurd (other q), λ q. absurd (q empty)))
      | inl (u, k) ↦
          let (normal, id, status, unlocked, low, high, hashed, same) = built_sound u k in
          subst Bootstraps (sym (done u empty k same)) (
            empty,
            record {
              user = u;
              only = refl;
              id = refl;
              email = refl;
              normalized = normal;
              status = status;
              unlocked = unlocked;
              long = (low, high);
              hashed = hashed;
              role = assigned u.id platform_admin w.db.roles;
            },
          )
    ]
  ]
