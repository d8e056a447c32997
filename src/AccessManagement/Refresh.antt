-- ===== src/AccessManagement/Refresh.antt =====
-- application/use-cases/refresh-admin-session.use-case.ts
pub mod Outcome
pub mod Replay
use pos_cloud.Common.{
  ℕ, suc, ◌+◌, ◌*◌, Bool, true, false, not, ◌||◌, Option, none, some, List, [], ◌∷◌, ok, err,
  Result, Action, ◌>>=◌, ◌>>◌, pure, or_throw, throw, throw_if, lift, gets, if◌then◌else◌, take,
  drop, length, ◌==◌,
}
use pos_cloud.Common.Text.{Text, index_of, ◌===◌}
use pos_cloud.Kernel.{Env, World, now, fresh_id, generate_secret, transaction}
use pos_cloud.AccessManagement.Errors.{AdminError, invalid_refresh_token}
use pos_cloud.AccessManagement.AdminSession
use pos_cloud.AccessManagement.AdminSession.{AdminSession, is_revoked, is_expired}
use pos_cloud.AccessManagement.Store.{
  Db, Ports, M, find_session, save_session, revoke_all_active_for_user,
}

pub record RefreshAdminSessionResult : Type 0 where
  pub access_token : Text
  pub expires_in_seconds : ℕ
  pub session_id : Text
  pub secret : Text

pub data RefreshTransactionOutcome : Type 0 where
  rotated : RefreshAdminSessionResult → RefreshTransactionOutcome
  replay_detected : RefreshTransactionOutcome

-- the id of the session and the secret
unfoldable pub parse_raw_refresh_token : Text → Result AdminError (Text × Text)
parse_raw_refresh_token raw = elim (index_of b'.' raw) [
  | none ↦ err invalid_refresh_token
  | some separator ↦
      if separator == 0 || separator + 1 == length raw
      then err invalid_refresh_token
      else ok (take separator raw, drop (separator + 1) raw)
]

module _ (ports : Ports) where
  open ports use {env, issue_access_token, access_token_ttl_seconds, refresh_token_ttl_seconds}

  -- `if (session.isRevoked()) { … }`
  unfoldable pub mitigate_replay : AdminSession → M RefreshTransactionOutcome
  mitigate_replay session = do
    t ← now env
    revoke_all_active_for_user session.admin_user_id t
    pure replay_detected

  unfoldable pub rotate : AdminSession → M RefreshTransactionOutcome
  rotate session = do
    started ← now env
    throw_if (is_expired started session) invalid_refresh_token
    id ← fresh_id env
    secret ← generate_secret env
    c ← now env
    r ← now env
    save_session (
        AdminSession.create
          (record {
            id = id;
            admin_user_id = session.admin_user_id;
            refresh_token_hash = env.sha256_hex secret;
            expires_at = started + refresh_token_ttl_seconds * 1000;
          })
          c)
    save_session (AdminSession.revoke r (some id) session)
    signed ← gets (λ w. w.ticks)
    pure (
        rotated (record {
          access_token = issue_access_token signed session.admin_user_id id;
          expires_in_seconds = access_token_ttl_seconds;
          session_id = id;
          secret = secret;
        }))

  -- the callback of `runExclusive`
  unfoldable pub refresh_locked : Text → Text → M RefreshTransactionOutcome
  refresh_locked session_id secret = do
    session ← or_throw (← find_session session_id) invalid_refresh_token
    throw_if (not (env.sha256_hex secret === session.refresh_token_hash)) invalid_refresh_token
    if is_revoked session then mitigate_replay session else rotate session

  -- A replay is refused after the transaction.
  unfoldable pub finish : RefreshTransactionOutcome → M RefreshAdminSessionResult
  finish (rotated r) = pure r
  finish replay_detected = throw invalid_refresh_token

  unfoldable pub refresh_admin_session : Text → M RefreshAdminSessionResult
  refresh_admin_session raw = do
    parsed ← lift (parse_raw_refresh_token raw)
    outcome ← transaction (refresh_locked parsed.0 parsed.1)
    finish outcome
