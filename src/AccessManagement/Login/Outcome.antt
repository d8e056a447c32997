-- ===== src/AccessManagement/Login/Outcome.antt =====
-- What a login has done, by how it ended.
use pos_cloud.Common.{
  ℕ, suc, ◌+◌, ◌*◌, ◌≡◌, refl, ◌⊎◌, inl, inr, true, false, none, some, arith, subst, sym,
  Bool-cases, Option-cases, Result, ok, err, Result-cases,
}
use pos_cloud.Common.Text.{Text}
use pos_cloud.Common.JsMap.{get, set, find}
use pos_cloud.Common.JsMap.Laws.{get-set_self}
use pos_cloud.Kernel.{World}
use pos_cloud.AccessManagement.Errors.{AdminError, invalid_admin_credentials}
use pos_cloud.AccessManagement.Email
use pos_cloud.AccessManagement.AdminUser.{
  AdminUser, can_attempt_login, record_failed_login, record_successful_login,
}
use pos_cloud.AccessManagement.AdminSession
use pos_cloud.AccessManagement.AdminSession.{AdminSession}
use pos_cloud.AccessManagement.Store.{Db, Ports, has_email}
use pos_cloud.AccessManagement.Login.Failure.{
  MayLogIn, Counts, may_log_in, may_not_log_in, failure-Counts,
}
use pos_cloud.AccessManagement.Login.{
  LoginAdminCommand, LoginAdminResult, reject_unverified, reject_password, open_session,
  attempt_login, login_found, login_admin,
}

module _ (ports : Ports) (command : LoginAdminCommand) (w : World Db) where
  abbrev started : ℕ
  started = ports.env.clock w.ticks

  abbrev written : ℕ
  written = ports.env.clock (suc w.ticks)

  -- The session of a successful login.
  pub record IsOpened (u : AdminUser) (w' : World Db) (r : LoginAdminResult) : Type 0 where
    pub session : AdminSession
    pub stored : get r.session_id w'.db.sessions ≡ some session
    pub id : session.id ≡ r.session_id
    pub owner : session.admin_user_id ≡ u.id
    pub hashed : session.refresh_token_hash ≡ ports.env.sha256_hex r.secret
    pub expires : session.expires_at ≡ started + ports.refresh_token_ttl_seconds * 1000
    pub unrevoked : session.revoked_at ≡ none
    pub user :
        get u.id w'.db.users
        ≡ some (record u {
          failed_login_attempts = 0;
          locked_until = none;
          last_login_at = some written;
          updated_at = written;
        })

  -- Why a login with a well-formed email failed, and what it wrote: without an account of the email
  -- that may log in only the password hash ran, and otherwise a wrong password is counted.
  abbrev pub Rejects : Text → World Db → Type 0
  Rejects email w' =
      (((find (has_email email) w.db.users ≡ none)
          ⊎ ((u : AdminUser) × (find (has_email email) w.db.users ≡ some u)
              × (¬ MayLogIn started u)))
        × (w'.db ≡ record (w.db) { verifications = suc w.db.verifications }))
      ⊎ ((u v : AdminUser) × (find (has_email email) w.db.users ≡ some u)
          × MayLogIn started u
          × (ports.verify_password u.password_hash command.password ≡ false)
          × Counts written u v
          × (w'.db ≡ record (w.db) {
            verifications = suc w.db.verifications;
            users = set u.id v w.db.users;
          }))

  abbrev pub LogsIn : Result AdminError LoginAdminResult × World Db → Type 0
  LogsIn (ok r, w') =
      (email : Text) × (u : AdminUser) × (Email.create ports.env.to_lower_case command.email
        ≡ ok email)
      × (find (has_email email) w.db.users ≡ some u)
      × MayLogIn started u
      × (ports.verify_password u.password_hash command.password ≡ true)
      × (w'.db.verifications ≡ suc w.db.verifications)
      × IsOpened u w' r
  LogsIn (err f, w') =
      ((Email.create ports.env.to_lower_case command.email ≡ err f) × (w' ≡ w))
      ⊎ ((f ≡ invalid_admin_credentials)
          × (email : Text) × (Email.create ports.env.to_lower_case command.email ≡ ok email)
          × Rejects email w')

  malformed :
      (f : AdminError)
      → Email.create ports.env.to_lower_case command.email ≡ err f
      → login_admin ports command w ≡ (err f, w)
  unfolding login_admin
  malformed f h = ground arith

  pub unverified :
      (email : Text)
      → Email.create ports.env.to_lower_case command.email ≡ ok email
      → (find (has_email email) w.db.users ≡ none)
        ⊎ ((u : AdminUser) × (find (has_email email) w.db.users ≡ some u)
            × (can_attempt_login started u ≡ false))
      → login_admin ports command w ≡ (
        err invalid_admin_credentials,
        record w {
          ticks = suc w.ticks;
          db = record (w.db) { verifications = suc w.db.verifications };
        },
      )
  unfolding login_admin login_found reject_unverified
  unverified email h (inl k) = ground arith
  unverified email h (inr (u, k, l)) = ground arith

  pub rejected :
      (email : Text) (u : AdminUser)
      → Email.create ports.env.to_lower_case command.email ≡ ok email
      → find (has_email email) w.db.users ≡ some u
      → can_attempt_login started u ≡ true
      → ports.verify_password u.password_hash command.password ≡ false
      → login_admin ports command w ≡ (
        err invalid_admin_credentials,
        record w {
          ticks = suc (suc w.ticks);
          db = record (w.db) {
            verifications = suc w.db.verifications;
            users =
                set (record_failed_login written u).id (record_failed_login written u) w.db.users;
          };
        },
      )
  unfolding login_admin login_found attempt_login reject_password
  rejected email u h k l m = ground arith

  pub accepted :
      (email : Text) (u : AdminUser)
      → Email.create ports.env.to_lower_case command.email ≡ ok email
      → find (has_email email) w.db.users ≡ some u
      → can_attempt_login started u ≡ true
      → ports.verify_password u.password_hash command.password ≡ true
      → login_admin ports command w
        ≡ open_session ports u started (record w {
          ticks = suc w.ticks;
          db = record (w.db) { verifications = suc w.db.verifications };
        })
  unfolding login_admin login_found attempt_login
  accepted email u h k l m = ground arith

  pub opened :
      (email : Text) (u : AdminUser)
      → Email.create ports.env.to_lower_case command.email ≡ ok email
      → find (has_email email) w.db.users ≡ some u
      → can_attempt_login started u ≡ true
      → ports.verify_password u.password_hash command.password ≡ true
      → LogsIn (
          open_session ports u started (record w {
            ticks = suc w.ticks;
            db = record (w.db) { verifications = suc w.db.verifications };
          }))
  unfolding open_session AdminSession.create record_successful_login
  opened email u h k l m = (
    email,
    u,
    h,
    k,
    may_log_in started u l,
    m,
    refl,
    record {
      session = _;
      stored = get-set_self _ _ w.db.sessions;
      id = refl;
      owner = refl;
      hashed = refl;
      expires = refl;
      unrevoked = refl;
      user = get-set_self u.id _ w.db.users;
    },
  )

  -- How a login ends. It fails with the store unchanged if the email is malformed; otherwise the
  -- password hash has run exactly once, and there are three ends. Without an account of the email
  -- that may log in, one that is ACTIVE and not under a lock, it fails with
  -- `invalid_admin_credentials` and nothing else is written. If the password of that account is
  -- wrong it fails in the same way, and the stored account has one failure more, from the fifth on
  -- with a lock for fifteen minutes. Otherwise the account may log in and the password is right,
  -- the account's failures and lock are cleared, and there is an open session of the account with
  -- the hash of the returned secret.
  pub login-LogsIn : LogsIn (login_admin ports command w)
  unfolding record_failed_login
  login-LogsIn = elim (Result-cases (Email.create ports.env.to_lower_case command.email)) [
    | inr (f, h) ↦ subst LogsIn (sym (malformed f h)) (inl (h, refl))
    | inl (email, h) ↦ elim (Option-cases (find (has_email email) w.db.users)) [
      | inl k ↦
          subst LogsIn (sym (unverified email h (inl k))) (inr (refl, email, h, inl (inl k, refl)))
      | inr (u, k) ↦ elim (Bool-cases (can_attempt_login started u)) [
        | inr l ↦
            subst LogsIn (sym (unverified email h (inr (u, k, l))))
              (inr (refl, email, h, inl (inr (u, k, may_not_log_in started u l), refl)))
        | inl l ↦ elim (Bool-cases (ports.verify_password u.password_hash command.password)) [
          | inl m ↦ subst LogsIn (sym (accepted email u h k l m)) (opened email u h k l m)
          | inr m ↦ subst LogsIn (sym (rejected email u h k l m)) (
              inr (
                refl,
                email,
                h,
                inr (
                  u,
                  record_failed_login written u,
                  k,
                  may_log_in started u l,
                  m,
                  failure-Counts written u,
                  refl,
                ),
              ))
        ]
      ]
    ]
  ]
