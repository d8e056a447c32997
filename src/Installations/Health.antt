-- ===== src/Installations/Health.antt =====
-- domain/compute-installation-health.ts, application/use-cases/record-installation-heartbeat,
-- get-installation-health and the upsert of typeorm-installation-health.repository.ts.
pub mod Laws
use pos_cloud.Common.{
  ℕ, ◌+◌, ◌*◌, Bool, true, false, ◌||◌, Option, none, some, ok, ◌>>=◌, ◌>>◌, pure, leb, ltb,
  if◌then◌else◌,
}
use Prim.Native.Nat.{max}
use pos_cloud.Common.Text.{Text}
use pos_cloud.Common.JsMap.{JsMap, get, set}
use pos_cloud.Kernel.{Env, World, now}
use pos_cloud.Installations.Status.{
  InstallationStatus, suspended, decommissioned, InstallationHealthStatus, never_seen, online,
  stale, offline, same_status,
}
use pos_cloud.Installations.Errors.{InstallationError}
use pos_cloud.Installations.Store.{Db, HealthRow, Ports, M, find_installation}

pub record InstallationHealthThresholds : Type 0 where
  pub stale_after_seconds : ℕ
  pub offline_after_seconds : ℕ

-- `(now - lastSeenAt) / 1000 < seconds`, which also holds where the clock is behind `lastSeenAt`
abbrev pub is_younger : ℕ → ℕ → ℕ → Bool
is_younger last_seen_at now seconds = ltb now (last_seen_at + seconds * 1000)

unfoldable pub compute_installation_health :
    InstallationStatus → Option ℕ → ℕ → InstallationHealthThresholds → InstallationHealthStatus
unfolding same_status
compute_installation_health lifecycle_status last_seen_at now thresholds =
    if same_status lifecycle_status suspended || same_status lifecycle_status decommissioned
    then offline
    else elim last_seen_at [
      | none ↦ never_seen
      | some last ↦
          if is_younger last now thresholds.stale_after_seconds
          then online
          else if is_younger last now thresholds.offline_after_seconds
          then stale
          else offline
    ]

pub record RecordHeartbeatInput : Type 0 where
  pub installation_id : Text
  pub received_at : ℕ
  pub app_version : Text
  pub client_reported_at : Option ℕ

-- the row that `VALUES` inserts
abbrev pub inserted_row : RecordHeartbeatInput → HealthRow
inserted_row h = record {
  first_seen_at = h.received_at;
  last_seen_at = h.received_at;
  client_reported_at = h.client_reported_at;
  app_version = h.app_version;
}

-- `ON CONFLICT (installation_id) DO UPDATE SET …`
unfoldable pub updated_row : RecordHeartbeatInput → HealthRow → HealthRow
updated_row h row =
    let wins = leb row.last_seen_at h.received_at in
    record row {
      last_seen_at = max row.last_seen_at h.received_at;
      app_version = if wins then h.app_version else row.app_version;
      client_reported_at = if wins then h.client_reported_at else row.client_reported_at;
    }

abbrev pub heartbeat_row : RecordHeartbeatInput → Option HealthRow → HealthRow
heartbeat_row h none = inserted_row h
heartbeat_row h (some row) = updated_row h row

unfoldable pub upsert_heartbeat : RecordHeartbeatInput → JsMap HealthRow → JsMap HealthRow
upsert_heartbeat h rows = set h.installation_id (heartbeat_row h (get h.installation_id rows)) rows

pub record InstallationHealthDetail : Type 0 where
  pub installation_id : Text
  pub lifecycle_status : InstallationStatus
  pub health_status : InstallationHealthStatus
  pub last_seen_at : Option ℕ
  pub first_seen_at : Option ℕ
  pub app_version : Option Text
  pub client_reported_at : Option ℕ

-- `snapshot?.lastSeenAt ?? null`
abbrev pub last_seen_of : Option HealthRow → Option ℕ
last_seen_of none = none
last_seen_of (some row) = some row.last_seen_at

abbrev pub first_seen_of : Option HealthRow → Option ℕ
first_seen_of none = none
first_seen_of (some row) = some row.first_seen_at

abbrev pub app_version_of : Option HealthRow → Option Text
app_version_of none = none
app_version_of (some row) = some row.app_version

abbrev pub client_reported_of : Option HealthRow → Option ℕ
client_reported_of none = none
client_reported_of (some row) = row.client_reported_at

module _ (ports : Ports) where
  open ports use {env}

  unfoldable pub record_installation_heartbeat : Text → Text → Option ℕ → M (Unit {0})
  record_installation_heartbeat installation_id app_version client_reported_at = do
    t ← now env
    λ w. (
      ok tt,
      record w {
        db = record (w.db) {
          health =
              upsert_heartbeat
                (record {
                  installation_id = installation_id;
                  received_at = t;
                  app_version = app_version;
                  client_reported_at = client_reported_at;
                })
                w.db.health;
        };
      },
    )

  unfoldable pub get_installation_health :
      InstallationHealthThresholds → Text → M (Option InstallationHealthDetail)
  get_installation_health config installation_id = do
    found ← find_installation installation_id
    elim found [
      | none ↦ pure none
      | some i ↦ (do
        snapshot ← λ w. (ok (get installation_id w.db.health), w)
        t ← now env
        pure (
            some (record {
              installation_id = installation_id;
              lifecycle_status = i.status;
              health_status = compute_installation_health i.status (last_seen_of snapshot) t config;
              last_seen_at = last_seen_of snapshot;
              first_seen_at = first_seen_of snapshot;
              app_version = app_version_of snapshot;
              client_reported_at = client_reported_of snapshot;
            })))
    ]
