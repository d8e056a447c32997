-- ===== src/Installations/Enrollment.antt =====
-- libs/control-plane/installations/src/domain/installation-enrollment.ts
use pos_cloud.Common.{ℕ, ◌+◌, ◌*◌, Bool, not, ◌&&◌, Option, none, some, leb, is_some}
use pos_cloud.Common.Text.{Text}
use pos_cloud.Installations.Status.{InstallationEnrollmentPurpose}

pub record InstallationEnrollment : Type 0 where
  pub id : Text
  pub installation_id : Text
  pub purpose : InstallationEnrollmentPurpose
  pub code_hash : Text
  pub created_at : ℕ
  pub expires_at : ℕ
  pub consumed_at : Option ℕ
  pub revoked_at : Option ℕ

pub record IssueInstallationEnrollmentInput : Type 0 where
  pub id : Text
  pub installation_id : Text
  pub purpose : InstallationEnrollmentPurpose
  pub code_hash : Text
  pub ttl_seconds : ℕ

unfoldable pub issue : IssueInstallationEnrollmentInput → ℕ → InstallationEnrollment
issue input now = record {
  id = input.id;
  installation_id = input.installation_id;
  purpose = input.purpose;
  code_hash = input.code_hash;
  created_at = now;
  expires_at = now + input.ttl_seconds * 1000;
  consumed_at = none;
  revoked_at = none;
}

abbrev pub is_consumed : InstallationEnrollment → Bool
is_consumed e = is_some e.consumed_at

abbrev pub is_revoked : InstallationEnrollment → Bool
is_revoked e = is_some e.revoked_at

abbrev pub is_expired : InstallationEnrollment → ℕ → Bool
is_expired e now = leb e.expires_at now

unfoldable pub is_consumable : InstallationEnrollment → ℕ → Bool
is_consumable e now = not (is_consumed e) && not (is_revoked e) && not (is_expired e now)

unfoldable pub mark_consumed : ℕ → InstallationEnrollment → InstallationEnrollment
mark_consumed now e = record e { consumed_at = some now }

unfoldable pub revoke : ℕ → InstallationEnrollment → InstallationEnrollment
revoke now e = record e { revoked_at = some now }
