-- ===== src/AccessManagement/Login/Failure.antt =====
-- When an account may log in, and what a failure makes of it.
use pos_cloud.Common.{
  ℕ, suc, ◌+◌, ◌*◌, ◌≤◌, ◌<◌, ◌↔◌, leb, Option, ◌≡◌, refl, ◌⊎◌, inl, inr, true, false, none, some,
  arith, ap, Bool-cases,
}
use pos_cloud.AccessManagement.AdminUser.{
  AdminUser, AdminUserStatus, active, suspended, is_active, is_later, is_locked, can_attempt_login,
  record_failed_login,
}

-- An account that may log in at a time: it is ACTIVE, and it has no lock or the lock is over.
abbrev pub HasPassed : ℕ → Option ℕ → Type 0
HasPassed t none = Unit
HasPassed t (some until) = until ≤ t

abbrev pub MayLogIn : ℕ → AdminUser → Type 0
MayLogIn t u = (u.status ≡ active) × HasPassed t u.locked_until

-- The account `u` after a failure at a time: one failure more, and from the fifth on a lock for
-- fifteen minutes.
abbrev pub Counts : ℕ → AdminUser → AdminUser → Type 0
Counts t u v =
    (lock : Option ℕ) × (v ≡ record u {
      failed_login_attempts = suc u.failed_login_attempts;
      locked_until = lock;
      updated_at = t;
    })
    × (((suc u.failed_login_attempts < 5) × (lock ≡ u.locked_until))
        ⊎ ((5 ≤ suc u.failed_login_attempts) × (lock ≡ some (t + 15 * 60 * 1000))))

later_iff : (t : ℕ) (until : Option ℕ) → (is_later t until ≡ false) ↔ HasPassed t until
later_iff t none = (λ h. tt, λ h. refl)
later_iff t (some until) = (λ h. ground arith, λ h. ground arith)

active_iff : (s : AdminUserStatus) → (is_active s ≡ true) ↔ (s ≡ active)
active_iff active = (λ h. refl, λ h. refl)
active_iff suspended = (λ h. cc, λ h. cc)

pub may_log_in : (t : ℕ) (u : AdminUser) → can_attempt_login t u ≡ true → MayLogIn t u
unfolding can_attempt_login is_locked
may_log_in t u h =
    ((active_iff u.status).0 (ground arith), (later_iff t u.locked_until).0 (ground arith))

pub may_not_log_in : (t : ℕ) (u : AdminUser) → can_attempt_login t u ≡ false → ¬ MayLogIn t u
unfolding can_attempt_login is_locked
may_not_log_in t u h (a, b) =
    let e = (active_iff u.status).1 a in let l = (later_iff t u.locked_until).1 b in ground arith

pub failure-Counts : (t : ℕ) (u : AdminUser) → Counts t u (record_failed_login t u)
unfolding record_failed_login
failure-Counts t u =
    let lock = (record_failed_login t u).locked_until in
    let e : u.failed_login_attempts + 1 ≡ suc u.failed_login_attempts = omega arith in
    (
      lock,
      ap (λ n. record u { failed_login_attempts = n; locked_until = lock; updated_at = t }) e,
      elim (Bool-cases (leb 5 (u.failed_login_attempts + 1))) [
        | inl h ↦ inr (ground arith, rw h refl)
        | inr h ↦ inl (ground arith, rw h refl)
      ],
    )
