-- ===== src/Installations/Tests/Health.antt =====
-- The theorems on heartbeats, health and the listing of installations at concrete stores.
use native.Mathlib.Omega.{arith}
use pos_cloud.Common.{ℕ, ◌≤◌, ◌≡◌, refl, none, some, ◌∷◌, [], ok}
use pos_cloud.Common.Text.{text, ◌===◌}
use pos_cloud.Common.JsMap.{get}
use pos_cloud.Kernel.{World}
use pos_cloud.Installations.Status.{active, windows}
use pos_cloud.Installations.Store.{Db, HealthRow}
use pos_cloud.Installations.Status.{online}
use pos_cloud.Installations.Health.{
  InstallationHealthThresholds, compute_installation_health, RecordHeartbeatInput, updated_row,
  upsert_heartbeat, record_installation_heartbeat, get_installation_health,
  InstallationHealthDetail,
}
use pos_cloud.Installations.Health.Laws.{
  severity, health_worsens, heartbeats_commute, heartbeat_then_health,
}
use pos_cloud.Installations.Listing.{ListInstallationsQuery}
use pos_cloud.Pagination.{finite, not_finite, pos}
use pos_cloud.Installations.Tests.{test_ports, test_installation, test_db, test_world}

abbrev test_thresholds : InstallationHealthThresholds
test_thresholds = record { stale_after_seconds = 10; offline_after_seconds = 60 }

health_worsens_example :
    severity (compute_installation_health active (some 5) 100 test_thresholds)
    ≤ severity (compute_installation_health active (some 5) 30000 test_thresholds)
health_worsens_example = health_worsens active (some 5) 100 30000 test_thresholds (omega arith)

abbrev beat : ℕ → RecordHeartbeatInput
beat t = record {
  installation_id = text "I";
  received_at = t;
  app_version = text "1";
  client_reported_at = none;
}

abbrev test_row : HealthRow
test_row = record {
  first_seen_at = 1;
  last_seen_at = 1;
  client_reported_at = none;
  app_version = text "0";
}

heartbeats_commute_example :
    (get
        (text "I")
        (upsert_heartbeat (beat 7) (upsert_heartbeat (beat 9) ((text "I", test_row) ∷ [])))
      ≡ get
          (text "I")
          (upsert_heartbeat (beat 9) (upsert_heartbeat (beat 7) ((text "I", test_row) ∷ []))))
    × (get
          (text "I")
          (upsert_heartbeat (beat 7) (upsert_heartbeat (beat 9) ((text "I", test_row) ∷ [])))
        ≡ some (updated_row (beat 7) (updated_row (beat 9) test_row)))
unfolding get ◌===◌
heartbeats_commute_example =
    heartbeats_commute (beat 7) (beat 9) test_row ((text "I", test_row) ∷ []) refl refl
      (λ e. omega (arith, e))

abbrev active_world : World Db
active_world = record test_world {
  db = record test_db {
    installations = (text "I", record test_installation { status = active }) ∷ [];
  };
}

heartbeat_then_health_example :
    (d : InstallationHealthDetail) × ((get_installation_health test_ports test_thresholds
        (text "I")
        (record_installation_heartbeat test_ports (text "I") (text "1") none active_world).1).0
      ≡ ok (some d))
    × (d.health_status ≡ online)
unfolding get ◌===◌
heartbeat_then_health_example =
    heartbeat_then_health test_ports (text "I") (text "1") none active_world
      (record test_installation { status = active }) test_thresholds refl refl (omega arith)

abbrev test_query : ListInstallationsQuery
test_query = record {
  pagination = record { page = not_finite; page_size = finite (pos 2) };
  customer_id = none;
  license_id = none;
  platform = some windows;
  status = none;
  search = some (text "pos");
}
