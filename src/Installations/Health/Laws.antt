-- ===== src/Installations/Health/Laws.antt =====
-- Health over time, and heartbeats in any order.
use pos_cloud.Common.{
  ℕ, suc, ◌+◌, ◌*◌, ◌≤◌, ◌<◌, ◌≡◌, refl, ◌≢◌, Option, none, some, arith, ap, subst, sym, ◌∙◌, ok,
}
use pos_cloud.Common.Text.{Text}
use pos_cloud.Common.JsMap.{JsMap, get, set}
use pos_cloud.Common.JsMap.Laws.{get-set_self}
use pos_cloud.Kernel.{World}
use pos_cloud.Installations.Status.{
  InstallationStatus, pending, active, suspended, decommissioned, InstallationHealthStatus,
  never_seen, online, stale, offline, same_status,
}
use pos_cloud.Installations.Store.{Db, HealthRow, Ports}
use pos_cloud.Installations.Installation.{Installation}
use pos_cloud.Installations.Health.{
  InstallationHealthThresholds, compute_installation_health, RecordHeartbeatInput, updated_row,
  upsert_heartbeat, heartbeat_row, record_installation_heartbeat, get_installation_health,
  InstallationHealthDetail,
}

-- How bad a health is.
abbrev pub severity : InstallationHealthStatus → ℕ
severity never_seen = 0
severity online = 0
severity stale = 1
severity offline = 2

-- Without a heartbeat the health of an installation does not get better as time passes, whatever
-- the thresholds.
pub health_worsens :
    (status : InstallationStatus) (last_seen : Option ℕ) (now later : ℕ)
    (thresholds : InstallationHealthThresholds)
    → now ≤ later
    → severity (compute_installation_health status last_seen now thresholds)
      ≤ severity (compute_installation_health status last_seen later thresholds)
unfolding compute_installation_health same_status
health_worsens pending none now later thresholds h = omega arith
health_worsens pending (some last) now later thresholds h = ground arith
health_worsens active none now later thresholds h = omega arith
health_worsens active (some last) now later thresholds h = ground arith
health_worsens suspended last_seen now later thresholds h = omega arith
health_worsens decommissioned last_seen now later thresholds h = omega arith

-- Of two heartbeats of different times it does not matter which is stored first.
pub updates_commute :
    (a b : RecordHeartbeatInput) (row : HealthRow)
    → a.received_at ≢ b.received_at
    → updated_row a (updated_row b row) ≡ updated_row b (updated_row a row)
unfolding updated_row
updates_commute a b row h = ground arith

get-upsert :
    (h : RecordHeartbeatInput) (rows : JsMap HealthRow) (k : Text)
    → h.installation_id ≡ k
    → get k (upsert_heartbeat h rows) ≡ some (heartbeat_row h (get k rows))
unfolding upsert_heartbeat
get-upsert h rows k same =
    subst
      (λ j.
        get j (set h.installation_id (heartbeat_row h (get h.installation_id rows)) rows)
        ≡ some (heartbeat_row h (get j rows)))
      same (get-set_self h.installation_id (heartbeat_row h (get h.installation_id rows)) rows)

get-upsert_twice :
    (a b : RecordHeartbeatInput) (row : HealthRow) (rows : JsMap HealthRow) (k : Text)
    → a.installation_id ≡ k
    → b.installation_id ≡ k
    → get k rows ≡ some row
    → get k (upsert_heartbeat a (upsert_heartbeat b rows))
      ≡ some (updated_row a (updated_row b row))
get-upsert_twice a b row rows k ka kb found =
    get-upsert a (upsert_heartbeat b rows) k ka
    ∙ ap (λ o. some (heartbeat_row a o))
        (get-upsert b rows k kb ∙ ap (λ o. some (heartbeat_row b o)) found)

-- Two heartbeats of an installation that has sent one before leave the same row in either order,
-- unless they have the same time; what is kept of them is from the latest.
pub heartbeats_commute :
    (a b : RecordHeartbeatInput) (row : HealthRow) (rows : JsMap HealthRow)
    → a.installation_id ≡ b.installation_id
    → get a.installation_id rows ≡ some row
    → a.received_at ≢ b.received_at
    → (get a.installation_id (upsert_heartbeat a (upsert_heartbeat b rows))
        ≡ get a.installation_id (upsert_heartbeat b (upsert_heartbeat a rows)))
      × (get a.installation_id (upsert_heartbeat a (upsert_heartbeat b rows))
          ≡ some (updated_row a (updated_row b row)))
heartbeats_commute a b row rows same found differ =
    let one = get-upsert_twice a b row rows a.installation_id refl (sym same) found in
    let other = get-upsert_twice b a row rows a.installation_id (sym same) refl found in
    (one ∙ ap some (updates_commute a b row differ) ∙ sym other, one)

latest :
    (h : RecordHeartbeatInput) (row : Option HealthRow)
    → h.received_at ≤ (heartbeat_row h row).last_seen_at
unfolding updated_row
latest h none = omega arith
latest h (some row) = ground arith

module _ (ports : Ports) (x version : Text) (reported : Option ℕ) (w : World Db) (i : Installation)
    (config : InstallationHealthThresholds) where
  fresh_online :
      (row : HealthRow) (now : ℕ)
      → ports.env.clock w.ticks ≤ row.last_seen_at
      → now < ports.env.clock w.ticks + config.stale_after_seconds * 1000
      → compute_installation_health active (some row.last_seen_at) now config ≡ online
  unfolding compute_installation_health same_status
  fresh_online row now a b = ground arith

  abbrev input : RecordHeartbeatInput
  input = record {
    installation_id = x;
    received_at = ports.env.clock w.ticks;
    app_version = version;
    client_reported_at = reported;
  }

  abbrev beaten : World Db
  beaten = (record_installation_heartbeat ports x version reported w).1

  health_equation :
      (row : HealthRow)
      → get x w.db.installations ≡ some i
      → get x (upsert_heartbeat input w.db.health) ≡ some row
      → (get_installation_health ports config x beaten).0
        ≡ ok (
            some (record {
              installation_id = x;
              lifecycle_status = i.status;
              health_status =
                  compute_installation_health i.status
                    (some row.last_seen_at)
                    (ports.env.clock (suc w.ticks))
                    config;
              last_seen_at = some row.last_seen_at;
              first_seen_at = some row.first_seen_at;
              app_version = some row.app_version;
              client_reported_at = row.client_reported_at;
            }))
  unfolding record_installation_heartbeat get_installation_health
  health_equation row found stored = ground arith

  -- Right after a heartbeat of an active installation, asking for its health finds it online,
  -- unless the clock has moved on by the time after which it is stale.
  pub heartbeat_then_health :
      get x w.db.installations ≡ some i
      → i.status ≡ active
      → ports.env.clock (suc w.ticks) < ports.env.clock w.ticks + config.stale_after_seconds * 1000
      → (d : InstallationHealthDetail) × ((get_installation_health ports config x beaten).0
          ≡ ok (some d))
        × (d.health_status ≡ online)
  heartbeat_then_health found live soon =
      let stored = get-upsert input w.db.health x refl in
      (
        _,
        health_equation (heartbeat_row input (get x w.db.health)) found stored,
        ap
              (λ s.
                compute_installation_health s
                  (some (heartbeat_row input (get x w.db.health)).last_seen_at)
                  (ports.env.clock (suc w.ticks)) config)
              live
            ∙ fresh_online (heartbeat_row input (get x w.db.health)) (ports.env.clock (suc w.ticks))
                (latest input (get x w.db.health)) soon,
      )
