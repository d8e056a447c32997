-- ===== src/CustomerManagement/UseCases.antt =====
-- The use cases of libs/control-plane/customer-management/src/application/use-cases over the
-- repository that src/test-support keeps in memory.
pub mod Create
pub mod Change
pub mod Calls
use pos_cloud.Common.{
  ℕ, Bool, not, Option, none, some, List, [], ◌∷◌, ok, Action, ◌>>=◌, ◌>>◌, pure, or_throw,
  throw_if, lift, is_some,
}
use pos_cloud.Common.Text.{Text, text, ◌===◌}
use pos_cloud.Common.JsMap.{JsMap, get, set, find, get_all}
use pos_cloud.Kernel.{
  Env, World, AuditActorContext, AuditEventInput, MetadataValue, string_value, now, fresh_id,
  record_audit,
}
use pos_cloud.CustomerManagement.Status.{
  CustomerStatus, status_text, CustomerError, invalid_customer_status_transition,
  customer_not_found, customer_code_already_exists, is_customer_status_transition_allowed,
}
use pos_cloud.CustomerManagement.Customer
use pos_cloud.CustomerManagement.Customer.{Customer, create_code, change_status}

pub record Db : Type 0 where
  pub customers : JsMap Customer

abbrev pub M : Type 0 → Type 0
M A = Action (World Db) CustomerError A

pub record CreateCustomerCommand : Type 0 where
  pub code : Text
  pub legal_name : Text
  pub trade_name : Option Text

-- InMemoryCustomerRepository

abbrev pub find_customer : Text → M (Option Customer)
find_customer id w = (ok (get id w.db.customers), w)

abbrev pub has_code : Text → Customer → Bool
has_code code c = c.code === code

abbrev pub find_customer_by_code : Text → M (Option Customer)
find_customer_by_code code w = (ok (find (has_code code) w.db.customers), w)

abbrev pub save_customer : Customer → M (Unit {0})
save_customer c w =
    (ok tt, record w { db = record (w.db) { customers = set c.id c w.db.customers } })

abbrev pub find_by_ids : List Text → M (List Customer)
find_by_ids ids w = (ok (get_all ids w.db.customers), w)

abbrev pub customer_event :
    AuditActorContext → Text → Text → List (Text × MetadataValue) → AuditEventInput
customer_event actor action id metadata = record {
  actor = actor;
  action = action;
  resource_type = text "Customer";
  resource_id = id;
  metadata = metadata;
}

unfoldable pub get_customer_by_id : Text → M (Option Customer)
get_customer_by_id id = find_customer id

unfoldable pub get_customers_by_ids : List Text → M (List Customer)
get_customers_by_ids [] = pure []
get_customers_by_ids (id ∷ ids) = find_by_ids (id ∷ ids)

module _ (env : Env) where
  unfoldable pub build_customer : CreateCustomerCommand → M Customer
  build_customer command = do
    id ← fresh_id env
    Customer.create env (record {
      id = id;
      code = command.code;
      legal_name = command.legal_name;
      trade_name = command.trade_name;
    })

  unfoldable pub create_customer : CreateCustomerCommand → AuditActorContext → M Customer
  create_customer command actor = do
    code ← lift (create_code env.to_upper_case command.code)
    existing ← find_customer_by_code code
    throw_if (is_some existing) customer_code_already_exists
    c ← build_customer command
    save_customer c
    record_audit env (customer_event actor (text "customer.created") c.id [])
    pure c

  -- `customer.changeStatus(status, clock)`, which reads the clock if the transition is allowed
  unfoldable pub apply_status : CustomerStatus → Customer → M Customer
  apply_status next c = do
    throw_if (not (is_customer_status_transition_allowed c.status next))
        (invalid_customer_status_transition c.status next)
    t ← now env
    lift (change_status next t c)

  unfoldable pub change_customer_status : Text → CustomerStatus → AuditActorContext → M Customer
  change_customer_status id next actor = do
    c ← or_throw (← find_customer id) customer_not_found
    c' ← apply_status next c
    save_customer c'
    record_audit env (
        customer_event actor (text "customer.status.changed") c'.id (
          (text "from", string_value (status_text c.status))
          ∷ (text "to", string_value (status_text c'.status))
          ∷ []))
    pure c'
