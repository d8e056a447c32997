-- ===== src/Installations/Credential.antt =====
-- libs/control-plane/installations/src/domain/installation-credential.ts
use pos_cloud.Common.{ℕ, Bool, Option, none, some, is_some, if◌then◌else◌}
use pos_cloud.Common.Text.{Text}

pub record InstallationCredential : Type 0 where
  pub id : Text
  pub installation_id : Text
  pub secret_hash : Text
  pub created_at : ℕ
  pub revoked_at : Option ℕ

unfoldable pub issue : Text → Text → Text → ℕ → InstallationCredential
issue id installation_id secret_hash now = record {
  id = id;
  installation_id = installation_id;
  secret_hash = secret_hash;
  created_at = now;
  revoked_at = none;
}

abbrev pub is_revoked : InstallationCredential → Bool
is_revoked c = is_some c.revoked_at

unfoldable pub revoke : ℕ → InstallationCredential → InstallationCredential
revoke now c = if is_revoked c then c else record c { revoked_at = some now }
