-- ===== src/ControlPlane/Tests/Controllers.antt =====
-- The answers of the controllers at the calls of ControlPlane/Tests.
use pos_cloud.Common.{none, some, [], ◌∷◌}
use pos_cloud.Common.Text.{text}
use pos_cloud.Pagination.{not_finite}
use pos_cloud.Installations.Status.{pending}
use pos_cloud.Installations.Health.{InstallationHealthThresholds}
use pos_cloud.Installations.Listing.{ListInstallationsQuery}
use pos_cloud.Installations.Controller
use pos_cloud.Installations.Controller.{CurrentAdmin}
use pos_cloud.Licensing.Status as LicenseStatus
use pos_cloud.Licensing.Listing.{ListLicensesQuery}
use pos_cloud.Licensing.Controller.{list}
use pos_cloud.ControlPlane.Adapters.{Platform, license_ports, installation_ports}
use pos_cloud.ControlPlane.Summaries.{summary_ports}
use pos_cloud.ControlPlane.Calls.{serve_all}
use pos_cloud.ControlPlane.Answers.{Answers, handle, handle-Answers, creates}
use pos_cloud.ControlPlane.Pages
use pos_cloud.ControlPlane.Licenses
use pos_cloud.ControlPlane.Licenses.{find_customers}
use pos_cloud.ControlPlane.Licenses.Listing.{IsAnswered, license_list-IsAnswered}
use pos_cloud.ControlPlane.Capacity.{IsSound, serve_all-IsSound}
use pos_cloud.ControlPlane.Tests.{
  test_settings, test_setup, test_calls, test_creation, empty_platform, first_id,
  test_settings-HasIds, empty_platform-IsSound,
}

abbrev test_admin : CurrentAdmin
test_admin = record { admin_user_id = text "a"; request_id = none }

abbrev test_thresholds : InstallationHealthThresholds
test_thresholds = record { stale_after_seconds = 180; offline_after_seconds = 900 }

abbrev test_listing : ListInstallationsQuery
test_listing = record {
  pagination = record { page = not_finite; page_size = not_finite };
  customer_id = none;
  license_id = none;
  platform = none;
  status = some pending;
  search = none;
}

handle-Answers_example :
    Answers
      (λ n. n ∷ [])
      test_settings
      (serve_all test_settings test_setup empty_platform)
      (creates test_creation test_admin)
      (handle
        (λ n. n ∷ [])
        test_settings
        (serve_all test_settings test_setup empty_platform)
        (creates test_creation test_admin))
handle-Answers_example =
    handle-Answers (λ n. n ∷ []) test_settings (serve_all test_settings test_setup empty_platform)
      (creates test_creation test_admin) test_settings-HasIds
      (serve_all-IsSound test_settings test_setup empty_platform test_settings-HasIds
        empty_platform-IsSound)

abbrev test_licenses : ListLicensesQuery
test_licenses = record {
  pagination = record { page = not_finite; page_size = not_finite };
  customer_id = some first_id;
  status = none;
  edition = none;
  search = none;
}

-- A platform with a customer, a license and an installation.
abbrev installed : Platform
installed = serve_all test_settings test_calls (serve_all test_settings test_setup empty_platform)

installed-IsSound : IsSound test_settings installed
installed-IsSound =
    serve_all-IsSound test_settings test_calls (serve_all test_settings test_setup empty_platform)
      test_settings-HasIds
      (serve_all-IsSound test_settings test_setup empty_platform test_settings-HasIds
        empty_platform-IsSound)

list-IsAnswered_example :
    Pages.IsAnswered
      (λ n. n ∷ [])
      test_settings
      installed
      test_thresholds
      test_listing
      (Controller.list
        (λ n. n ∷ [])
        (installation_ports test_settings installed)
        (summary_ports installed)
        test_thresholds
        test_listing
        installed.installations)
list-IsAnswered_example =
    Pages.list-IsAnswered (λ n. n ∷ []) test_settings installed test_thresholds test_listing
      installed-IsSound

license-Answers_example :
    Licenses.Answers
      (λ n. n ∷ [])
      test_settings
      installed
      (Licenses.changes_status first_id LicenseStatus.suspended test_admin)
      (Licenses.handle
        (λ n. n ∷ [])
        test_settings
        installed
        (Licenses.changes_status first_id LicenseStatus.suspended test_admin))
license-Answers_example =
    Licenses.license-Answers (λ n. n ∷ []) test_settings installed
      (Licenses.changes_status first_id LicenseStatus.suspended test_admin) test_settings-HasIds
      installed-IsSound

license_list-IsAnswered_example :
    IsAnswered
      (λ n. n ∷ [])
      test_settings
      installed
      test_licenses
      (list
        (find_customers (λ n. n ∷ []) test_settings installed)
        (λ n. n ∷ [])
        (license_ports test_settings installed)
        test_licenses
        installed.licenses)
license_list-IsAnswered_example =
    license_list-IsAnswered (λ n. n ∷ []) test_settings installed test_licenses installed-IsSound
