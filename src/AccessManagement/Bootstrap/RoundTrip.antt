-- ===== src/AccessManagement/Bootstrap/RoundTrip.antt =====
-- A login after the bootstrap.
use pos_cloud.Common.{ℕ, ◌≡◌, refl, true, none, some, ◌∷◌, [], arith, ap, subst, ◌∙◌, ok}
use pos_cloud.Common.Text.{Text, ===_refl}
use pos_cloud.Common.JsMap.{find}
use pos_cloud.Kernel.{World}
use pos_cloud.AccessManagement.AdminUser.{AdminUser, active, can_attempt_login, is_locked}
use pos_cloud.AccessManagement.Store.{Db, Ports, has_email}
use pos_cloud.AccessManagement.Login.{
  LoginAdminCommand, LoginAdminResult, login_admin, open_session,
}
use pos_cloud.AccessManagement.Login.Outcome.{accepted}
use pos_cloud.AccessManagement.Bootstrap.{
  BootstrapFirstAdminCommand, BootstrapFirstAdminResult, bootstrap_first_admin,
}
use pos_cloud.AccessManagement.Bootstrap.Outcome.{Bootstraps, bootstrap-Bootstraps}

first_can_login :
    (u : AdminUser) (t : ℕ)
    → u.status ≡ active
    → u.locked_until ≡ none
    → can_attempt_login t u ≡ true
unfolding can_attempt_login is_locked
first_can_login u t a b = ground arith

found_only :
    (x email : Text) (u : AdminUser)
    → u.email ≡ email
    → find (has_email email) ((x, u) ∷ []) ≡ some u
unfolding find
found_only x email u h = rw (h, ===_refl email) refl

module _ (ports : Ports) (command : BootstrapFirstAdminCommand) (w w' : World Db)
    (r : BootstrapFirstAdminResult) where
  abbrev credentials : LoginAdminCommand
  credentials = record { email = command.email; password = command.password }

  -- If verifying a password against its own hash succeeds, a login with the email and the password
  -- of the bootstrap succeeds right after it, as the administrator that was created.
  pub bootstrap_then_login :
      ((n : ℕ) (p : Text) → ports.verify_password (ports.hash_password n p) p ≡ true)
      → bootstrap_first_admin ports command w ≡ (ok r, w')
      → (l : LoginAdminResult) × ((login_admin ports credentials w').0 ≡ ok l)
        × (l.user_id ≡ r.id)
        × (l.user_email ≡ r.email)
  unfolding open_session
  bootstrap_then_login verifies call =
      let (empty, q) =
        subst (Bootstraps ports command w) call (bootstrap-Bootstraps ports command w) in
      let e =
        accepted ports credentials w' r.email q.user q.normalized
          (ap (find (has_email r.email)) q.only ∙ found_only r.id r.email q.user q.email)
          (first_can_login q.user _ q.status q.unlocked)
          (rw q.hashed (verifies w.secrets command.password)) in
      (_, ap (λ o. o.0) e, q.id, q.email)
