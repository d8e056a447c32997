-- ===== src/Licensing/Tests.antt =====
-- The theorems of licensing at a concrete store.
use pos_cloud.Common.{◌+◌, ◌≡◌, refl, inl, ◌≤◌, ◌↔◌, true, none, some, List, [], ◌∷◌, arith, subst}
use pos_cloud.Common.Text.{Text, text, ◌===◌}
use pos_cloud.Common.JsMap.{get, count}
use pos_cloud.Kernel.{contains, World, AuditActorContext, system}
use pos_cloud.Licensing.Status.{active, suspended, basic, premium, perpetual, subscription}
use pos_cloud.Licensing.License.{
  License, CreateLicenseInput, ReplaceEntitlementItemInput, natural, is_usable,
}
use pos_cloud.Licensing.License.WellFormed.{HasNotEnded, IsWellFormed, is_usable_iff}
use pos_cloud.Pagination.{finite, pos}
use pos_cloud.Licensing.Listing.{ListLicensesQuery}
use pos_cloud.Licensing.UseCases.{Db, Ports, create_license}
use pos_cloud.Licensing.UseCases.Invariant.{AreWellFormed}
use pos_cloud.Licensing.UseCases.Calls.{Call, creates, changes_status, replaces, serve_all}
use pos_cloud.Licensing.UseCases.Calls.Reach.{IsValid, Grows, serve_all-Grows}
use pos_cloud.Licensing.UseCases.Create.{create-AreWellFormed}

abbrev test_ports : Ports
test_ports = record {
  env = record {
    clock = λ n. 1000 + n;
    next_id = λ n. n ∷ [];
    next_secret = λ n. n ∷ [];
    sha256_hex = λ s. s;
    hex_bytes = λ s. s;
    to_upper_case = λ s. s;
    to_lower_case = λ s. s;
    audit_accepts = λ e. true;
    ilike = contains;
  };
  find_customer_summary = λ id. some (record { id = id; active = true });
}

abbrev test_license : License
test_license = record {
  id = text "L";
  customer_id = text "C";
  license_number = text "LIC-1";
  edition = basic;
  license_model = perpetual;
  status = active;
  valid_from = 5;
  valid_until = none;
  max_installations = 2;
  created_at = 5;
  updated_at = 5;
  entitlements = [];
}

abbrev test_world : World Db
test_world = record {
  db = record { licenses = (text "L", test_license) ∷ [] };
  ticks = 0;
  ids = 100;
  secrets = 0;
  trail = [];
}

abbrev test_actor : AuditActorContext
test_actor = record { actor_type = system; actor_id = none; correlation_id = text "r" }

abbrev test_items : List ReplaceEntitlementItemInput
test_items = record { code = text "kitchen_display"; enabled = true; configuration = none } ∷ []

get_only : (k j : Text) (v l : License) → get k ((j, v) ∷ []) ≡ some l → v ≡ l
unfolding get
get_only k j v l h = ground arith

test_AreWellFormed : AreWellFormed test_world.db.licenses
test_AreWellFormed k l found =
    subst IsWellFormed (get_only k (text "L") test_license l found)
      (record { validity = inl (refl, refl, refl); capacity = omega arith; distinct = tt })

abbrev test_input : CreateLicenseInput
test_input = record {
  customer_id = text "C";
  license_number = text "LIC-2";
  edition = premium;
  license_model = subscription;
  valid_from = 5;
  valid_until = some 9;
  max_installations = natural 3;
  entitlements = test_items;
}

create-AreWellFormed_example :
    AreWellFormed (create_license test_ports test_input test_actor test_world).1.db.licenses
create-AreWellFormed_example =
    create-AreWellFormed test_ports test_input test_actor test_world test_AreWellFormed

is_usable_iff_example : (is_usable 7 test_license ≡ true) ↔ (
    (test_license.status ≡ active)
    × (test_license.valid_from ≤ 7)
    × HasNotEnded 7 test_license.valid_until)
is_usable_iff_example = is_usable_iff 7 test_license

test_world-IsValid : IsValid (λ id. Unit {0}) (λ n. n ∷ []) test_world
unfolding count get ◌===◌
test_world-IsValid = record {
  keyed = (refl, refl, tt);
  unique = λ x. ground arith;
  fresh = λ n h. ground arith;
  good = λ k l found. (test_AreWellFormed k l found, tt);
}

abbrev test_calls : List (Ports × Call)
test_calls =
    (test_ports, creates test_input test_actor)
    ∷ (test_ports, changes_status (text "L") suspended test_actor)
    ∷ (test_ports, replaces (text "L") test_items test_actor)
    ∷ []

serve_all-Grows_example :
    Grows (λ id. Unit {0}) (λ n. n ∷ []) test_world (serve_all test_calls test_world)
serve_all-Grows_example =
    serve_all-Grows (λ id. Unit {0}) (λ n. n ∷ []) test_calls test_world
      ((refl, λ id s h. tt), ((refl, λ id s h. tt), ((refl, λ id s h. tt), tt))) (λ m n e. cc e)
      test_world-IsValid

abbrev test_query : ListLicensesQuery
test_query = record {
  pagination = record { page = finite (pos 1); page_size = finite (pos 500) };
  customer_id = some (text "C");
  status = some active;
  edition = none;
  search = some (text "lic");
}
