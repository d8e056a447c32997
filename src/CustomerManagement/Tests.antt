-- ===== src/CustomerManagement/Tests.antt =====
-- The theorems of customer management at concrete calls.
use pos_cloud.Common.{◌+◌, refl, true, none, some, List, [], ◌∷◌, arith}
use pos_cloud.Common.Text.{text}
use pos_cloud.Common.JsMap.{get, count}
use pos_cloud.Common.JsMap.Slots.{IsInjective}
use pos_cloud.Common.JsMap.Kept.{IsKept}
use pos_cloud.Kernel.{contains, Env, World, AuditActorContext, system}
use pos_cloud.Pagination.{finite, pos, not_finite}
use pos_cloud.CustomerManagement.Status.{active, suspended}
use pos_cloud.CustomerManagement.UseCases.{Db, CreateCustomerCommand, create_customer}
use pos_cloud.CustomerManagement.UseCases.Create.{IsValid, Creates, create_customer-Creates}
use pos_cloud.CustomerManagement.UseCases.Calls.{
  Call, creates, changes_status, serve_all, is_terminal, serve_all-Customers,
}
use pos_cloud.CustomerManagement.Listing.{ListCustomersQuery}

abbrev test_env : Env
test_env = record {
  clock = λ n. 1000 + n;
  next_id = λ n. n ∷ [];
  next_secret = λ n. n ∷ [];
  sha256_hex = λ s. s;
  hex_bytes = λ s. s;
  to_upper_case = λ s. s;
  to_lower_case = λ s. s;
  audit_accepts = λ e. true;
  ilike = contains;
}

test_id-IsInjective : IsInjective (λ n. n ∷ [])
test_id-IsInjective m n e = cc e

abbrev test_world : World Db
test_world = record { db = record { customers = [] }; ticks = 0; ids = 0; secrets = 0; trail = [] }

abbrev test_actor : AuditActorContext
test_actor = record { actor_type = system; actor_id = none; correlation_id = text "r" }

abbrev test_command : CreateCustomerCommand
test_command = record {
  code = text " GST-MX ";
  legal_name = text "GS Trackme S.A.";
  trade_name = some (text "GS Trackme");
}

test_world-IsValid : IsValid test_env test_world
unfolding count get
test_world-IsValid = record {
  keyed = tt;
  unique = λ x. omega arith;
  fresh = λ n h. refl;
  good = λ k v h. absurd (cc h);
}

abbrev test_calls : List Call
test_calls = creates test_command test_actor ∷ changes_status (0 ∷ []) suspended test_actor ∷ []

create_customer-Creates_example :
    Creates test_env test_command test_world
      (create_customer test_env test_command test_actor test_world)
create_customer-Creates_example =
    create_customer-Creates test_env test_command test_world test_actor test_id-IsInjective
      test_world-IsValid

serve_all-Customers_example :
    IsValid test_env (serve_all test_env test_calls test_world)
    × IsKept is_terminal test_world.db.customers
        (serve_all test_env test_calls test_world).db.customers
serve_all-Customers_example =
    serve_all-Customers test_env test_calls test_world test_id-IsInjective test_world-IsValid

abbrev test_query : ListCustomersQuery
test_query = record {
  pagination = record { page = finite (pos 2); page_size = not_finite };
  status = some active;
  search = some (text "GST");
}
