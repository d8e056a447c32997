-- ===== src/AccessManagement/Login/Lockout.antt =====
-- Wrong passwords and the lock of an account.
use pos_cloud.Common.{
  ℕ, zero, suc, ◌+◌, ◌*◌, ◌<◌, ◌≡◌, refl, inr, true, false, none, some, List, [], ◌∷◌, length, All,
  arith, ap, ◌∙◌, subst, sym, ok, err,
}
use pos_cloud.Common.Text.{Text}
use pos_cloud.Common.JsMap.{find}
use pos_cloud.Common.JsMap.Laws.{find_sound, find-set, set-IsKeyed, IsKeyed}
use pos_cloud.Kernel.{World}
use pos_cloud.AccessManagement.Errors.{invalid_admin_credentials}
use pos_cloud.AccessManagement.Email
use pos_cloud.AccessManagement.AdminUser.{
  AdminUser, active, can_attempt_login, is_locked, record_failed_login,
}
use pos_cloud.AccessManagement.Store.{Db, Ports, has_email}
use pos_cloud.AccessManagement.Login.{LoginAdminCommand, login_admin}
use pos_cloud.AccessManagement.Login.Outcome.{unverified, rejected}

-- an ACTIVE account without a lock may log in
unlocked :
    (u : AdminUser) (t : ℕ)
    → u.status ≡ active
    → u.locked_until ≡ none
    → can_attempt_login t u ≡ true
unfolding can_attempt_login is_locked
unlocked u t a b = ground arith

locked :
    (u : AdminUser) (t until : ℕ)
    → u.locked_until ≡ some until
    → t < until
    → can_attempt_login t u ≡ false
unfolding can_attempt_login is_locked
locked u t until h soon = ground arith

-- a failure before the fifth, and the fifth
fails :
    (u : AdminUser) (t n : ℕ)
    → suc n + u.failed_login_attempts ≡ 4
    → u.locked_until ≡ none
    → (n + (record_failed_login t u).failed_login_attempts ≡ 4)
      × ((record_failed_login t u).locked_until ≡ none)
unfolding record_failed_login
fails u t n h none_yet = (omega arith, ground arith)

fifth_fails :
    (u : AdminUser) (t : ℕ)
    → u.failed_login_attempts ≡ 4
    → (record_failed_login t u).locked_until ≡ some (t + 15 * 60 * 1000)
unfolding record_failed_login
fifth_fails u t h = ground arith

same_account :
    (u : AdminUser) (t : ℕ)
    → ((record_failed_login t u).email ≡ u.email)
      × ((record_failed_login t u).id ≡ u.id)
      × ((record_failed_login t u).status ≡ u.status)
      × ((record_failed_login t u).password_hash ≡ u.password_hash)
unfolding record_failed_login
same_account u t = (refl, refl, refl, refl)

module _ (ports : Ports) (email : Text) where
  -- The logins of a list, one after the other.
  abbrev pub login_all : List LoginAdminCommand → World Db → World Db
  login_all [] w = w
  login_all (c ∷ commands) w = login_all commands (login_admin ports c w).1

  -- a login with the email
  abbrev pub IsOfEmail : LoginAdminCommand → Type 0
  IsOfEmail c = Email.create ports.env.to_lower_case c.email ≡ ok email

  -- a login with the email and a password that the hash does not verify
  abbrev pub IsWrong : Text → LoginAdminCommand → Type 0
  IsWrong hash c = IsOfEmail c × (ports.verify_password hash c.password ≡ false)

  -- Each login of a list begins before a time.
  abbrev pub AreBefore : ℕ → List LoginAdminCommand → World Db → Type 0
  AreBefore t [] w = Unit
  AreBefore t (c ∷ commands) w =
      (ports.env.clock w.ticks < t) × AreBefore t commands (login_admin ports c w).1

  -- Each login of a list fails and leaves accounts and sessions as they are.
  abbrev pub AreRefused : List LoginAdminCommand → World Db → Type 0
  AreRefused [] w = Unit
  AreRefused (c ∷ commands) w =
      ((login_admin ports c w).0 ≡ err invalid_admin_credentials)
      × ((login_admin ports c w).1.db.users ≡ w.db.users)
      × ((login_admin ports c w).1.db.sessions ≡ w.db.sessions)
      × AreRefused commands (login_admin ports c w).1

  -- The account of the email is ACTIVE, without a lock, and a number of failures from the fourth.
  record HasFailed (n : ℕ) (hash : Text) (w : World Db) : Type 0 where
    user : AdminUser
    keyed : IsKeyed (λ (v : AdminUser). v.id) w.db.users
    found : find (has_email email) w.db.users ≡ some user
    count : n + user.failed_login_attempts ≡ 4
    is_active : user.status ≡ active
    no_lock : user.locked_until ≡ none
    password : user.password_hash ≡ hash

  -- A wrong password replaces the account by the one after the failure.
  counted :
      (n : ℕ) (hash : Text) (w : World Db) (c : LoginAdminCommand) (h : HasFailed n hash w)
      → IsWrong hash c
      → (IsKeyed (λ (v : AdminUser). v.id) (login_admin ports c w).1.db.users)
        × (find (has_email email) (login_admin ports c w).1.db.users
            ≡ some (record_failed_login (ports.env.clock (suc w.ticks)) h.user))
  counted n hash w c h (mail, wrong) =
      let t = ports.env.clock (suc w.ticks) in
      let u = h.user in
      let u' : AdminUser = record_failed_login t u in
      let (same_mail, same_id, same_status, same_hash) = same_account u t in
      let e =
        rejected ports c w email u mail h.found (unlocked u _ h.is_active h.no_lock)
          (rw h.password wrong) in
      (
        subst (λ r. IsKeyed (λ (v : AdminUser). v.id) r.1.db.users) (sym e)
            (set-IsKeyed (λ v. v.id) u' w.db.users h.keyed),
        ap (λ r. find (has_email email) r.1.db.users) e
            ∙ find-set (λ v. v.id) (has_email email) w.db.users u u' h.keyed h.found same_id
                (rw same_mail (find_sound (has_email email) w.db.users u h.found)),
      )

  step :
      (n : ℕ) (hash : Text) (w : World Db) (c : LoginAdminCommand)
      → HasFailed (suc n) hash w
      → IsWrong hash c
      → HasFailed n hash (login_admin ports c w).1
  step n hash w c h wrong =
      let t = ports.env.clock (suc w.ticks) in
      let (keyed', found') = counted (suc n) hash w c h wrong in
      let (count', no_lock') = fails h.user t n h.count h.no_lock in
      let (same_mail, same_id, same_status, same_hash) = same_account h.user t in
      record {
        user = record_failed_login t h.user;
        keyed = keyed';
        found = found';
        count = count';
        is_active = same_status ∙ h.is_active;
        no_lock = no_lock';
        password = same_hash ∙ h.password;
      }

  steps :
      (hash : Text) (commands : List LoginAdminCommand) (w : World Db)
      → HasFailed (length commands) hash w
      → All (IsWrong hash) commands
      → HasFailed zero hash (login_all commands w)
  steps hash [] w h all = h
  steps hash (c ∷ commands) w h (wrong, all) =
      steps hash commands (login_admin ports c w).1 (step _ hash w c h wrong) all

  -- Under a lock logins are refused until it is over, and do not prolong it.
  refused :
      (commands : List LoginAdminCommand) (w : World Db) (u : AdminUser) (until : ℕ)
      → find (has_email email) w.db.users ≡ some u
      → u.locked_until ≡ some until
      → All IsOfEmail commands
      → AreBefore until commands w
      → AreRefused commands w
  refused [] w u until found lock all soon = tt
  refused (c ∷ commands) w u until found lock (mail, all) (soon, rest) =
      let e = unverified ports c w email mail (inr (u, found, locked u _ until lock soon)) in
      (
        ap (λ r. r.0) e,
        ap (λ r. r.1.db.users) e,
        ap (λ r. r.1.db.sessions) e,
        refused commands (login_admin ports c w).1 u until
            (ap (λ r. find (has_email email) r.1.db.users) e ∙ found) lock all rest,
      )

  module _ (before : List LoginAdminCommand) (fifth : LoginAdminCommand)
      (later : List LoginAdminCommand) (u : AdminUser) (w : World Db) where
    -- Take an ACTIVE account without a lock, and so many logins with its email and a wrong password
    -- that with the failures already counted the last is the fifth. From that failure on every one
    -- of any number of logins with the email, each begun within fifteen minutes of it, is refused,
    -- whatever the password, and leaves accounts and sessions as they are.
    pub fifth_failure_locks :
        IsKeyed (λ (v : AdminUser). v.id) w.db.users
        → find (has_email email) w.db.users ≡ some u
        → u.status ≡ active
        → u.locked_until ≡ none
        → length before + u.failed_login_attempts ≡ 4
        → All (IsWrong u.password_hash) before
        → IsWrong u.password_hash fifth
        → All IsOfEmail later
        → AreBefore
            (ports.env.clock (suc (login_all before w).ticks) + 15 * 60 * 1000)
            later
            (login_admin ports fifth (login_all before w)).1
        → AreRefused later (login_admin ports fifth (login_all before w)).1
    fifth_failure_locks keyed found is_active no_lock count wrong fifth_wrong mails soon =
        let start : HasFailed (length before) u.password_hash w = record {
          user = u;
          keyed = keyed;
          found = found;
          count = count;
          is_active = is_active;
          no_lock = no_lock;
          password = refl;
        } in
        let four = steps u.password_hash before w start wrong in
        let (keyed', found') =
          counted zero u.password_hash (login_all before w) fifth four fifth_wrong in
        refused later (login_admin ports fifth (login_all before w)).1 _ _ found'
          (fifth_fails four.user _ (let e = four.count in omega arith)) mails soon
