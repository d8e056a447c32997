-- ===== src/Installations/Enroll/Checks.antt =====
-- The checks of an enrollment.
use pos_cloud.Common.{suc, ◌≡◌, Bool, true, false, Option, none, some, arith, ok, err}
use pos_cloud.Common.Text.{Text}
use pos_cloud.Common.JsMap.{get}
use pos_cloud.Kernel.{World}
use pos_cloud.Installations.Status.{is_installation_eligible_for_enrollment}
use pos_cloud.Installations.Errors.{InstallationError, enrollment_failed}
use pos_cloud.Installations.Installation.{Installation}
use pos_cloud.Installations.Enrollment.{InstallationEnrollment, is_consumable}
use pos_cloud.Installations.Secrets.{secret_matches_hash}
use pos_cloud.Installations.Token.{OpaqueToken}
use pos_cloud.Installations.Store.{Db, Ports, CustomerSummary, LicenseSummary}
use pos_cloud.Installations.Enroll.{check_enrollment}

abbrev pub is_active_customer : Option CustomerSummary → Bool
is_active_customer none = false
is_active_customer (some c) = c.active

abbrev pub is_usable_license : Option LicenseSummary → Bool
is_usable_license none = false
is_usable_license (some l) = l.usable

module _ (ports : Ports) where
  -- What the callback has established of installation and enrollment when all checks have passed.
  pub record IsChecked (parsed : OpaqueToken) (x : Text) (w : World Db) (i : Installation)
      (e : InstallationEnrollment) : Type 0 where
    pub found_installation : get x w.db.installations ≡ some i
    pub found_enrollment : get parsed.id w.db.enrollments ≡ some e
    pub matches : secret_matches_hash ports.env parsed.secret e.code_hash ≡ true
    pub consumable : is_consumable e (ports.env.clock w.ticks) ≡ true
    pub eligible : is_installation_eligible_for_enrollment i.status e.purpose ≡ true
    pub customer : is_active_customer (ports.find_customer_summary i.customer_id) ≡ true
    pub license : is_usable_license (ports.find_license_summary i.license_id) ≡ true

  module _ (parsed : OpaqueToken) (x : Text) (w : World Db) where
    pub check_sound :
        (i : Installation) (e : InstallationEnrollment)
        → (check_enrollment ports parsed x w).0 ≡ ok (i, e)
        → IsChecked parsed x w i e
          × ((check_enrollment ports parsed x w).1 ≡ record w { ticks = suc w.ticks })
    unfolding check_enrollment
    check_sound i e h = ground arith

    pub check_refuses :
        (f : InstallationError)
        → (check_enrollment ports parsed x w).0 ≡ err f
        → (f ≡ enrollment_failed)
          × ((check_enrollment ports parsed x w).1.db ≡ w.db)
          × ((check_enrollment ports parsed x w).1.trail ≡ w.trail)
          × ((check_enrollment ports parsed x w).1.ids ≡ w.ids)
    unfolding check_enrollment
    check_refuses f h = ground arith

    pub check_complete :
        (i : Installation) (e : InstallationEnrollment)
        → IsChecked parsed x w i e
        → check_enrollment ports parsed x w ≡ (ok (i, e), record w { ticks = suc w.ticks })
    unfolding check_enrollment
    check_complete i e h = ground arith
