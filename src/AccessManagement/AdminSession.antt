-- ===== src/AccessManagement/AdminSession.antt =====
-- libs/control-plane/access-management/src/domain/admin-session.ts
use pos_cloud.Common.{ℕ, Bool, not, ◌&&◌, Option, none, some, leb, is_some}
use pos_cloud.Common.Text.{Text}

pub record AdminSession : Type 0 where
  pub id : Text
  pub admin_user_id : Text
  pub refresh_token_hash : Text
  pub expires_at : ℕ
  pub revoked_at : Option ℕ
  pub replaced_by_session_id : Option Text
  pub created_at : ℕ
  pub last_used_at : ℕ

pub record CreateAdminSessionInput : Type 0 where
  pub id : Text
  pub admin_user_id : Text
  pub refresh_token_hash : Text
  pub expires_at : ℕ

unfoldable pub create : CreateAdminSessionInput → ℕ → AdminSession
create input now = record {
  id = input.id;
  admin_user_id = input.admin_user_id;
  refresh_token_hash = input.refresh_token_hash;
  expires_at = input.expires_at;
  revoked_at = none;
  replaced_by_session_id = none;
  created_at = now;
  last_used_at = now;
}

abbrev pub is_expired : ℕ → AdminSession → Bool
is_expired now s = leb s.expires_at now

abbrev pub is_revoked : AdminSession → Bool
is_revoked s = is_some s.revoked_at

abbrev pub is_active : ℕ → AdminSession → Bool
is_active now s = not (is_revoked s) && not (is_expired now s)

-- `replacedBySessionId` is written if one is given.
unfoldable pub revoke : ℕ → Option Text → AdminSession → AdminSession
revoke now none s = record s { revoked_at = some now }
revoke now (some id) s = record s { revoked_at = some now; replaced_by_session_id = some id }

abbrev pub touch : ℕ → AdminSession → AdminSession
touch now s = record s { last_used_at = now }
