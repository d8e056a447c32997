-- ===== src/CustomerManagement/Customer.antt =====
-- customer.ts, customer-code.ts and customer-name.ts of
-- libs/control-plane/customer-management/src/domain.
pub mod WellFormed
use pos_cloud.Common.{
  ℕ, suc, ◌||◌, Option, none, some, [], Result, ok, err, Action, ◌>>=◌, pure, lift, and_then, ltb,
  length, if◌then◌else◌,
}
use pos_cloud.Common.Text.{Text, trim, matches_code, ◌===◌}
use pos_cloud.Kernel.{Env, World, now}
use pos_cloud.CustomerManagement.Status.{
  CustomerStatus, active, CustomerError, invalid_customer_code, invalid_customer_legal_name,
  invalid_customer_trade_name, invalid_customer_status_transition,
  is_customer_status_transition_allowed,
}

pub record Customer : Type 0 where
  pub id : Text
  pub code : Text
  pub legal_name : Text
  pub trade_name : Option Text
  pub status : CustomerStatus
  pub created_at : ℕ
  pub updated_at : ℕ

pub record CreateCustomerInput : Type 0 where
  pub id : Text
  pub code : Text
  pub legal_name : Text
  pub trade_name : Option Text

-- `CustomerCode.create`
unfoldable pub create_code : (Text → Text) → Text → Result CustomerError Text
create_code to_upper_case raw =
    let normalized = to_upper_case (trim raw) in
    if matches_code 2 49 normalized then ok normalized else err invalid_customer_code

-- `CustomerName.createLegalName`
unfoldable pub create_legal_name : Text → Result CustomerError Text
create_legal_name raw =
    let normalized = trim raw in
    if ltb (length normalized) 2 || ltb 200 (length normalized)
    then err invalid_customer_legal_name
    else ok normalized

-- `CustomerName.createTradeName`
unfoldable pub create_trade_name : Text → Result CustomerError Text
create_trade_name raw =
    let normalized = trim raw in
    if ltb (length normalized) 1 || ltb 200 (length normalized)
    then err invalid_customer_trade_name
    else ok normalized

-- `input.tradeName != null && input.tradeName !== "" ? … : null`
unfoldable pub optional_trade_name : Option Text → Result CustomerError (Option Text)
optional_trade_name none = ok none
optional_trade_name (some raw) =
    if raw === [] then ok none else and_then (create_trade_name raw) λ name. ok (some name)

module _ (env : Env) {Db : Type 0} where
  -- `Customer.create`, with its clock
  unfoldable pub create : CreateCustomerInput → Action (World Db) CustomerError Customer
  create input = do
    t ← now env
    code ← lift (create_code env.to_upper_case input.code)
    legal_name ← lift (create_legal_name input.legal_name)
    trade_name ← lift (optional_trade_name input.trade_name)
    pure (record {
      id = input.id;
      code = code;
      legal_name = legal_name;
      trade_name = trade_name;
      status = active;
      created_at = t;
      updated_at = t;
    })

-- `Customer.changeStatus`, at the reading of its clock
unfoldable pub change_status : CustomerStatus → ℕ → Customer → Result CustomerError Customer
change_status next now c =
    if is_customer_status_transition_allowed c.status next
    then ok (record c { status = next; updated_at = now })
    else err (invalid_customer_status_transition c.status next)
