-- ===== src/ControlPlane/Tests.antt =====
-- The theorems of the control plane at concrete calls.
mod Controllers
use pos_cloud.Common.{◌+◌, ◌≡◌, refl, true, none, some, ok, List, [], ◌∷◌, arith}
use pos_cloud.Common.Text.{Text, text, ◌===◌, trim, trim_start, matches_code}
use pos_cloud.Common.JsMap.{get, set, find, count}
use pos_cloud.Kernel.{contains, Env, World, AuditActorContext, system, record_audit}
use pos_cloud.CustomerManagement.Status as CustomerStatus
use pos_cloud.CustomerManagement.UseCases.{get_customer_by_id}
use pos_cloud.CustomerManagement.UseCases.Calls as CustomerCalls
use pos_cloud.Installations.Status.{windows, pending}
use pos_cloud.Installations.Installation
use pos_cloud.Installations.Installation.{Installation, create_code, validate_name}
use pos_cloud.Installations.Store
use pos_cloud.Installations.Create.{
  CreateInstallationCommand, create_installation, check_references, build_installation,
  save_within_capacity,
}
use pos_cloud.Installations.Calls as InstallationCalls
use pos_cloud.Pagination.{not_finite}
use pos_cloud.Installations.Health.{InstallationHealthThresholds}
use pos_cloud.Installations.Listing.{ListInstallationsQuery}
use pos_cloud.Installations.Controller.{CurrentAdmin, list}
use pos_cloud.ControlPlane.Summaries.{summary_ports}
use pos_cloud.ControlPlane.Pages.{IsAnswered, list-IsAnswered}
use pos_cloud.Licensing.Status as LicenseStatus
use pos_cloud.Licensing.Status.{basic, perpetual}
use pos_cloud.Licensing.License.{natural, is_usable}
use pos_cloud.Licensing.UseCases.{get_license_summary}
use pos_cloud.Licensing.UseCases.Calls as LicenseCalls
use pos_cloud.ControlPlane.Adapters.{
  Platform, Settings, installation_ports, read_customer, read_license,
}
use pos_cloud.ControlPlane.Calls.{Call, of_customers, of_licenses, of_installations, serve_all}
use pos_cloud.ControlPlane.Creation.{IsEntitled, create-IsEntitled}
use pos_cloud.ControlPlane.Answers.{Answers, handle, handle-Answers, creates}
use pos_cloud.ControlPlane.Licenses
use pos_cloud.ControlPlane.Capacity.{IsSound, HasIds, serve_all-IsSound}

abbrev test_env : Env
test_env = record {
  clock = λ n. 1000 + n;
  next_id = λ n. n ∷ [];
  next_secret = λ n. n ∷ [];
  sha256_hex = λ s. s;
  hex_bytes = λ s. s;
  to_upper_case = λ s. s;
  to_lower_case = λ s. s;
  audit_accepts = λ e. true;
  ilike = contains;
}

abbrev test_settings : Settings
test_settings = record {
  customers = test_env;
  licenses = test_env;
  installations = test_env;
  enrollment_code_ttl_seconds = 60;
}

abbrev empty_platform : Platform
empty_platform = record {
  customers = record {
    db = record { customers = [] };
    ticks = 0;
    ids = 0;
    secrets = 0;
    trail = [];
  };
  licenses = record { db = record { licenses = [] }; ticks = 0; ids = 0; secrets = 0; trail = [] };
  installations = record {
    db = record { installations = []; enrollments = []; credentials = []; health = [] };
    ticks = 0;
    ids = 0;
    secrets = 0;
    trail = [];
  };
}

test_settings-HasIds : HasIds test_settings
test_settings-HasIds = record {
  customers = λ m n e. cc e;
  licenses = λ m n e. cc e;
  installations = λ m n e. cc e;
}

empty_platform-IsSound : IsSound test_settings empty_platform
unfolding count get
empty_platform-IsSound = record {
  customers = record {
    keyed = tt;
    unique = λ x. omega arith;
    fresh = λ n h. refl;
    good = λ k v h. absurd (cc h);
  };
  licenses = record {
    keyed = tt;
    unique = λ x. omega arith;
    fresh = λ n h. refl;
    good = λ k v h. absurd (cc h);
  };
  installations = record {
    installations_keyed = tt;
    installations_fresh = λ n h. refl;
    unique_codes = λ code. omega arith;
    stamped = λ k i h. absurd (cc h);
    enrollments = record { keyed = tt; single = λ x. omega arith; fresh = λ n h. refl };
    credentials = record { keyed = tt; single = λ x. omega arith; fresh = λ n h. refl };
    credentialed = λ k c h. absurd (cc h);
  };
  fits = record { capacity = λ x. omega arith; owned = λ k i h. absurd (cc h) };
}

abbrev test_actor : AuditActorContext
test_actor = record { actor_type = system; actor_id = none; correlation_id = text "r" }

abbrev first_id : Text
first_id = 0 ∷ []

abbrev test_creation : CreateInstallationCommand
test_creation = record {
  customer_id = first_id;
  license_id = first_id;
  installation_code = text "POS-01";
  name = text "Till";
  platform = windows;
}

abbrev test_setup : List Call
test_setup =
    of_customers (
      CustomerCalls.creates
        (record { code = text "GST-MX"; legal_name = text "GS Trackme"; trade_name = none })
        test_actor)
    ∷ of_licenses (
        LicenseCalls.creates
          (record {
            customer_id = first_id;
            license_number = text "LIC-01";
            edition = basic;
            license_model = perpetual;
            valid_from = 5;
            valid_until = none;
            max_installations = natural 1;
            entitlements = [];
          })
          test_actor)
    ∷ []

-- A customer, a license for one installation, and two attempts to use it.
abbrev test_calls : List Call
test_calls =
    of_installations (InstallationCalls.creates test_creation test_actor)
    ∷ of_installations (InstallationCalls.creates test_creation test_actor)
    ∷ []

serve_all-IsSound_example :
    IsSound test_settings
      (serve_all test_settings test_calls (serve_all test_settings test_setup empty_platform))
serve_all-IsSound_example =
    serve_all-IsSound test_settings test_calls (serve_all test_settings test_setup empty_platform)
      test_settings-HasIds
      (serve_all-IsSound test_settings test_setup empty_platform test_settings-HasIds
        empty_platform-IsSound)

-- A platform with a customer and a license, and no installation yet.
abbrev stocked : Platform
stocked = record empty_platform {
  customers = record {
    db = record {
      customers =
          (
            first_id,
            record {
              id = first_id;
              code = text "GST-MX";
              legal_name = text "GS Trackme";
              trade_name = none;
              status = CustomerStatus.active;
              created_at = 1;
              updated_at = 1;
            },
          )
          ∷ [];
    };
    ticks = 0;
    ids = 1;
    secrets = 0;
    trail = [];
  };
  licenses = record {
    db = record {
      licenses =
          (
            first_id,
            record {
              id = first_id;
              customer_id = first_id;
              license_number = text "LIC-01";
              edition = basic;
              license_model = perpetual;
              status = LicenseStatus.active;
              valid_from = 5;
              valid_until = none;
              max_installations = 1;
              created_at = 1;
              updated_at = 1;
              entitlements = [];
            },
          )
          ∷ [];
    };
    ticks = 0;
    ids = 1;
    secrets = 0;
    trail = [];
  };
}

abbrev till : Installation
till = record {
  id = first_id;
  customer_id = first_id;
  license_id = first_id;
  installation_code = text "POS-01";
  name = text "Till";
  platform = windows;
  status = pending;
  registered_at = none;
  created_at = 1000;
  updated_at = 1000;
}

abbrev after_creation : World Store.Db
after_creation = record {
  db = record {
    installations = (first_id, till) ∷ [];
    enrollments = [];
    credentials = [];
    health = [];
  };
  ticks = 2;
  ids = 2;
  secrets = 0;
  trail =
      record {
        id = 1 ∷ [];
        occurred_at = 1001;
        actor_type = system;
        actor_id = none;
        action = text "installation.created";
        resource_type = text "Installation";
        resource_id = first_id;
        correlation_id = text "r";
        metadata = [];
      }
      ∷ [];
}

creates_till :
    create_installation
      (installation_ports test_settings stocked)
      test_creation
      test_actor
      stocked.installations
    ≡ (ok till, after_creation)
unfolding get set find count ◌===◌ create_installation check_references build_installation
    save_within_capacity create_code validate_name Installation.create trim trim_start matches_code
    record_audit read_customer read_license get_customer_by_id get_license_summary is_usable
    CustomerStatus.same_status LicenseStatus.same_status
creates_till = refl

create-IsEntitled_example : IsEntitled test_settings stocked test_creation
create-IsEntitled_example =
    create-IsEntitled test_settings stocked test_creation test_actor till after_creation
      test_settings-HasIds.installations empty_platform-IsSound.installations creates_till
