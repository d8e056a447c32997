-- ===== src/AccessManagement/Refresh/Replay.antt =====
-- A refresh token that is used twice.
use pos_cloud.Common.{◌≡◌, refl, none, ap, subst, sym, ◌∙◌, ok, err}
use pos_cloud.Common.Text.{Text, ===_iff}
use pos_cloud.Common.JsMap.{get, count}
use pos_cloud.Common.JsMap.Laws.{key_of_get, IsKeyed}
use pos_cloud.Kernel.{World}
use pos_cloud.AccessManagement.Errors.{invalid_refresh_token}
use pos_cloud.AccessManagement.AdminSession.{AdminSession}
use pos_cloud.AccessManagement.Store.{Db, Ports, is_active_of}
use pos_cloud.AccessManagement.Refresh.{RefreshAdminSessionResult, refresh_admin_session}
use pos_cloud.AccessManagement.Refresh.Outcome.{
  revoke_all_clears, IsGenuine, Refreshes, refresh-Refreshes, replayed,
}

module _ (ports : Ports) (raw : Text) (w : World Db) where
  -- A token that was exchanged is a replay: used again right after, it fails and leaves its user
  -- without any active session, the one that replaced it included.
  pub reuse_revokes_all :
      (r : RefreshAdminSessionResult) (w' : World Db)
      → get (ports.env.next_id w.ids) w.db.sessions ≡ none
      → IsKeyed (λ (v : AdminSession). v.id) w.db.sessions
      → refresh_admin_session ports raw w ≡ (ok r, w')
      → (s : AdminSession) × IsGenuine ports raw w s
        × ((refresh_admin_session ports raw w').0 ≡ err invalid_refresh_token)
        × (count (is_active_of s.admin_user_id) (refresh_admin_session ports raw w').1.db.sessions
            ≡ 0)
  reuse_revokes_all r w' new keyed call =
      let (s, g, unrevoked, alive, q) =
        subst (Refreshes ports raw w) call (refresh-Refreshes ports raw w new keyed) in
      let same : s.id ≡ g.session_id =
        key_of_get (λ v. v.id) g.session_id w.db.sessions s keyed g.found in
      let e =
        replayed ports raw w' g.session_id g.secret _ g.parses
          (ap (λ y. get y w'.db.sessions) (sym same) ∙ q.revoked)
          ((===_iff (ports.env.sha256_hex g.secret) s.refresh_token_hash).1 g.matches) refl in
      (
        s,
        g,
        ap (λ o. o.0) e,
        ap (λ o. count (is_active_of s.admin_user_id) o.1.db.sessions) e
            ∙ revoke_all_clears s.admin_user_id (ports.env.clock w'.ticks) w'.db.sessions,
      )
