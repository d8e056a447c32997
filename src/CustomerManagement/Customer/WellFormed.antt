-- ===== src/CustomerManagement/Customer/WellFormed.antt =====
-- What the value objects of a customer guarantee.
use pos_cloud.Common.{ℕ, suc, ◌≡◌, ◌≤◌, true, Option, none, some, ok, arith, length}
use pos_cloud.Common.Text.{Text, matches_code}
use pos_cloud.Kernel.{Env, World}
use pos_cloud.CustomerManagement.Status.{CustomerStatus, active}
use pos_cloud.CustomerManagement.Customer.{
  Customer, CreateCustomerInput, create_code, create_legal_name, create_trade_name,
  optional_trade_name, create, change_status,
}

abbrev pub IsWithin : ℕ → Text → Type 0
IsWithin low s = (low ≤ length s) × (length s ≤ 200)

abbrev pub IsTradeName : Option Text → Type 0
IsTradeName none = Unit
IsTradeName (some s) = IsWithin 1 s

pub record IsWellFormed (c : Customer) : Type 0 where
  pub code : matches_code 2 49 c.code ≡ true
  pub legal_name : IsWithin 2 c.legal_name
  pub trade_name : IsTradeName c.trade_name

code_sound :
    (upper : Text → Text) (raw code : Text)
    → create_code upper raw ≡ ok code
    → matches_code 2 49 code ≡ true
unfolding create_code
code_sound upper raw code h = ground arith

legal_sound : (raw name : Text) → create_legal_name raw ≡ ok name → IsWithin 2 name
unfolding create_legal_name
legal_sound raw name h = ground arith

trade_sound : (raw name : Text) → create_trade_name raw ≡ ok name → IsWithin 1 name
unfolding create_trade_name
trade_sound raw name h = ground arith

optional_sound : (o n : Option Text) → optional_trade_name o ≡ ok n → IsTradeName n
unfolding optional_trade_name
optional_sound none none h = tt
optional_sound none (some s) h = absurd (cc h)
optional_sound (some raw) none h = tt
optional_sound (some raw) (some s) h = ground (arith, trade_sound raw s)

module _ (env : Env) (input : CreateCustomerInput) where
  -- The customer as it is created.
  pub record IsNew (c : Customer) : Type 0 where
    pub id : c.id ≡ input.id
    pub normalized : create_code env.to_upper_case input.code ≡ ok c.code
    pub status : c.status ≡ active
    pub well_formed : IsWellFormed c

module _ (env : Env) {Db : Type 0} (input : CreateCustomerInput) (w : World Db) where
  create_parts :
      (c : Customer)
      → (create env input w).0 ≡ ok c
      → (c.id ≡ input.id)
        × (create_code env.to_upper_case input.code ≡ ok c.code)
        × (create_legal_name input.legal_name ≡ ok c.legal_name)
        × (optional_trade_name input.trade_name ≡ ok c.trade_name)
        × (c.status ≡ active)
  unfolding create
  create_parts c h = ground arith

  pub create-IsNew : (c : Customer) → (create env input w).0 ≡ ok c → IsNew env input c
  create-IsNew c h =
      let (same, code, legal, trade, status) = create_parts c h in
      record {
        id = same;
        normalized = code;
        status = status;
        well_formed = record {
          code = code_sound env.to_upper_case input.code c.code code;
          legal_name = legal_sound input.legal_name c.legal_name legal;
          trade_name = optional_sound input.trade_name c.trade_name trade;
        };
      }

  pub create_world : (create env input w).1 ≡ record w { ticks = suc w.ticks }
  unfolding create
  create_world = ground arith

module _ (next : CustomerStatus) (t : ℕ) (c c' : Customer) where
  pub change_parts :
      change_status next t c ≡ ok c' → c' ≡ record c { status = next; updated_at = t }
  unfolding change_status
  change_parts h = ground arith
