-- ===== src/AccessManagement/Login/Logout.antt =====
-- What a logout has done.
use pos_cloud.Common.{
  ℕ, suc, ◌≡◌, refl, ◌≢◌, ◌⊎◌, inl, inr, true, false, Option, none, some, arith, ap, sym, ◌∙◌, ok,
  Bool-cases, take,
}
use pos_cloud.Common.Text.{Text, index_of}
use pos_cloud.Common.JsMap.{get, set}
use pos_cloud.Common.JsMap.Laws.{get-set_self, key_of_get, IsKeyed}
use pos_cloud.Kernel.{World}
use pos_cloud.AccessManagement.AdminSession
use pos_cloud.AccessManagement.AdminSession.{AdminSession, is_revoked}
use pos_cloud.AccessManagement.Store.{Db, Ports}
use pos_cloud.AccessManagement.Login.{logout_admin, revoke_found}

module _ (ports : Ports) (raw : Text) (w : World Db) where
  module _ (n : ℕ) (s : AdminSession) where
    already_out :
        index_of b'.' raw ≡ some n
        → n ≢ 0
        → get (take n raw) w.db.sessions ≡ some s
        → is_revoked s ≡ true
        → logout_admin ports (some raw) w ≡ (ok tt, w)
    unfolding logout_admin revoke_found
    already_out a b c d = ground arith

    logs_out :
        index_of b'.' raw ≡ some n
        → n ≢ 0
        → get (take n raw) w.db.sessions ≡ some s
        → is_revoked s ≡ false
        → logout_admin ports (some raw) w ≡ (
          ok tt,
          record w {
            ticks = suc w.ticks;
            db = record (w.db) {
              sessions =
                  set s.id (record s { revoked_at = some (ports.env.clock w.ticks) }) w.db.sessions;
            };
          },
        )
    unfolding logout_admin revoke_found AdminSession.revoke
    logs_out a b c d = ground arith

  -- A logout with a cookie whose part before the first dot names a session succeeds, and that
  -- session is revoked afterwards, with the time that it had been revoked at if it was before.
  pub logout_revokes :
      (n : ℕ) (s : AdminSession)
      → IsKeyed (λ (v : AdminSession). v.id) w.db.sessions
      → index_of b'.' raw ≡ some n
      → n ≢ 0
      → get (take n raw) w.db.sessions ≡ some s
      → ((logout_admin ports (some raw) w).0 ≡ ok tt)
        × ((s' : AdminSession) × (get (take n raw) (logout_admin ports (some raw) w).1.db.sessions
              ≡ some s')
            × (is_revoked s' ≡ true)
            × ((is_revoked s ≡ false) ⊎ (s' ≡ s)))
  logout_revokes n s keyed a b c = elim (Bool-cases (is_revoked s)) [
    | inl d ↦
        let e = already_out n s a b c d in
        (ap (λ o. o.0) e, (s, ap (λ o. get (take n raw) o.1.db.sessions) e ∙ c, d, inr refl))
    | inr d ↦
        let e = logs_out n s a b c d in
        let same : s.id ≡ take n raw =
          key_of_get (λ v. v.id) (take n raw) w.db.sessions s keyed c in
        (
          ap (λ o. o.0) e,
          (
            _,
            ap (λ o. get (take n raw) o.1.db.sessions) e
                ∙ ap
                    (λ k. get k (
                      set s.id (record s { revoked_at = some (ports.env.clock w.ticks) })
                        w.db.sessions))
                    (sym same)
                ∙ get-set_self s.id _ w.db.sessions,
            refl,
            inl d,
          ),
        )
  ]

  -- Whatever cookie it is given, or none, a logout never fails.
  pub logout_succeeds : (cookie : Option Text) → (logout_admin ports cookie w).0 ≡ ok tt
  unfolding logout_admin revoke_found
  logout_succeeds none = refl
  logout_succeeds (some c) = ground arith
