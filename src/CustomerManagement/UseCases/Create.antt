-- ===== src/CustomerManagement/UseCases/Create.antt =====
-- Creating a customer: what the use case has done, by how it ended.
use pos_cloud.Common.{
  ℕ, ◌<◌, ◌≢◌, length, suc, ◌≡◌, refl, ◌∙◌, ◌⊎◌, inl, inr, Option, none, some, [], arith, subst,
  sym, Result, ok, err, Result-cases, Option-cases,
}
use pos_cloud.Common.Text.{Text, text, trim, ===_iff}
use pos_cloud.Common.JsMap.{get, set, find}
use pos_cloud.Common.JsMap.Laws.{get-set_self}
use pos_cloud.Common.JsMap.Slots.{IsInjective}
use pos_cloud.Common.JsMap.Table.{IsTable, IsTable-later, insert-IsTable}
use pos_cloud.Kernel.{Env, World, AuditActorContext, record_audit}
use pos_cloud.CustomerManagement.Status.{
  CustomerError, invalid_customer_code, invalid_customer_legal_name, invalid_customer_trade_name,
  customer_code_already_exists,
}
use pos_cloud.CustomerManagement.Customer
use pos_cloud.CustomerManagement.Customer.{
  Customer, CreateCustomerInput, create_code, create_legal_name, create_trade_name,
  optional_trade_name,
}
use pos_cloud.CustomerManagement.Customer.WellFormed.{
  IsWellFormed, IsNew, create-IsNew, create_world,
}
use pos_cloud.CustomerManagement.UseCases.{
  Db, CreateCustomerCommand, has_code, customer_event, build_customer, create_customer,
}

module _ (env : Env) where
  -- Customers are stored under their ids, ids to come are unused, no two customers have the same
  -- code, and codes and names have the form that their value objects demand.
  abbrev pub IsValid : World Db → Type 0
  IsValid w =
      IsTable (λ (c : Customer). c.id) (λ c. c.code) IsWellFormed env.next_id w.ids w.db.customers

  code_error :
      (raw : Text) (f : CustomerError)
      → create_code env.to_upper_case raw ≡ err f
      → f ≡ invalid_customer_code
  unfolding create_code
  code_error raw f h = ground arith

  -- A text has, without the white space around it, fewer than `low` or more than `high` code units.
  abbrev pub IsOutside : ℕ → ℕ → Text → Type 0
  IsOutside low high raw = (length (trim raw) < low) ⊎ (high < length (trim raw))

  -- A trade name is given, and it is too long or has nothing but white space.
  abbrev pub IsBadTradeName : Option Text → Type 0
  IsBadTradeName none = ⊥
  IsBadTradeName (some raw) = (raw ≢ []) × IsOutside 1 200 raw

  legal_error :
      (raw : Text) (f : CustomerError)
      → create_legal_name raw ≡ err f
      → (f ≡ invalid_customer_legal_name) × IsOutside 2 200 raw
  unfolding create_legal_name
  legal_error raw f h = ground arith

  trade_error :
      (o : Option Text) (f : CustomerError)
      → optional_trade_name o ≡ err f
      → (f ≡ invalid_customer_trade_name) × IsBadTradeName o
  unfolding optional_trade_name create_trade_name
  trade_error none f h = absurd (cc h)
  trade_error (some raw) f h = ground (arith, ===_iff raw [])

  module _ (command : CreateCustomerCommand) (w : World Db) where
    -- The world after the customer is built.
    abbrev built : World Db
    built = record w { ids = suc w.ids; ticks = suc w.ticks }

    abbrev stored : Customer → World Db
    stored c = record built { db = record (w.db) { customers = set c.id c w.db.customers } }

    abbrev input : CreateCustomerInput
    input = record {
      id = env.next_id w.ids;
      code = command.code;
      legal_name = command.legal_name;
      trade_name = command.trade_name;
    }

    -- A name of the command has the wrong length, and the error says which.
    abbrev pub HasBadName : CustomerError → Type 0
    HasBadName f =
        ((f ≡ invalid_customer_legal_name) × IsOutside 2 200 command.legal_name)
        ⊎ ((f ≡ invalid_customer_trade_name) × IsBadTradeName command.trade_name)

    -- What a call has done, by how it ended.
    abbrev pub Creates : Result CustomerError Customer × World Db → Type 0
    Creates (ok c, w') =
        IsNew env input c
        × (find (has_code c.code) w.db.customers ≡ none)
        × (w'.db ≡ record (w.db) { customers = set c.id c w.db.customers })
        × (get c.id w'.db.customers ≡ some c)
        × IsValid w'
    Creates (err f, w') =
        (w'.db ≡ w.db)
        × (w'.trail ≡ w.trail)
        × IsValid w'
        × ((f ≡ invalid_customer_code) × (create_code env.to_upper_case command.code ≡ err f)
            ⊎ ((code : Text) × (create_code env.to_upper_case command.code ≡ ok code)
                × (((f ≡ customer_code_already_exists)
                      × ((c : Customer) × (find (has_code code) w.db.customers ≡ some c)))
                    ⊎ HasBadName f)))

    build_result :
        (build_customer env command w).0
        ≡ (Customer.create env input (record w { ids = suc w.ids })).0
    unfolding build_customer
    build_result = refl

    build_world : (build_customer env command w).1 ≡ built
    unfolding build_customer
    build_world = create_world env input (record w { ids = suc w.ids })

    build_error :
        (code : Text) (f : CustomerError)
        → create_code env.to_upper_case command.code ≡ ok code
        → (build_customer env command w).0 ≡ err f
        → HasBadName f
    unfolding build_customer Customer.create
    build_error code f h b = elim (Result-cases (create_legal_name command.legal_name)) [
      | inr (g, bad) ↦ inl (
          subst (λ x. (x ≡ invalid_customer_legal_name) × IsOutside 2 200 command.legal_name)
            (ground arith) (legal_error command.legal_name g bad))
      | inl (name, good) ↦ elim (Result-cases (optional_trade_name command.trade_name)) [
        | inr (g, bad) ↦ inr (
            subst (λ x. (x ≡ invalid_customer_trade_name) × IsBadTradeName command.trade_name)
              (ground arith) (trade_error command.trade_name g bad))
        | inl (trade, fine) ↦ absurd (ground arith)
      ]
    ]

    module _ (actor : AuditActorContext) where
      create_malformed :
          (f : CustomerError)
          → create_code env.to_upper_case command.code ≡ err f
          → create_customer env command actor w ≡ (err f, w)
      unfolding create_customer
      create_malformed f h = ground arith

      create_taken :
          (code : Text) (c : Customer)
          → create_code env.to_upper_case command.code ≡ ok code
          → find (has_code code) w.db.customers ≡ some c
          → create_customer env command actor w ≡ (err customer_code_already_exists, w)
      unfolding create_customer
      create_taken code c h found = ground arith

      create_unnamed :
          (code : Text) (f : CustomerError)
          → create_code env.to_upper_case command.code ≡ ok code
          → find (has_code code) w.db.customers ≡ none
          → (build_customer env command w).0 ≡ err f
          → create_customer env command actor w ≡ (err f, built)
      unfolding create_customer
      create_unnamed code f h free b = ground (arith, build_world)

      create_accepted :
          (code : Text) (c : Customer)
          → create_code env.to_upper_case command.code ≡ ok code
          → find (has_code code) w.db.customers ≡ none
          → (build_customer env command w).0 ≡ ok c
          → create_customer env command actor w ≡ (
            ok c,
            (record_audit env {E = CustomerError}
                (customer_event actor (text "customer.created") c.id [])
                (stored c)).1,
          )
      unfolding create_customer record_audit
      create_accepted code c h free b = ground (arith, build_world)

      accepted-Creates :
          (code : Text) (c : Customer)
          → IsInjective env.next_id
          → IsValid w
          → create_code env.to_upper_case command.code ≡ ok code
          → find (has_code code) w.db.customers ≡ none
          → (build_customer env command w).0 ≡ ok c
          → Creates (create_customer env command actor w)
      unfolding record_audit
      accepted-Creates code c inj h normal free b =
          let n = create-IsNew env input (record w { ids = suc w.ids }) c (sym build_result ∙ b) in
          let same : code ≡ c.code = cc (normal, n.normalized) in
          let unused = subst (λ x. find (has_code x) w.db.customers ≡ none) same free in
          subst Creates (sym (create_accepted code c normal free b)) (
            n,
            unused,
            refl,
            get-set_self c.id c w.db.customers,
            IsTable-later _ _ _ _ (insert-IsTable _ _ _ _ c inj h n.id unused n.well_formed)
                (omega arith),
          )

      -- Creating a customer fails with stores and trail unchanged, because the code is malformed,
      -- or because a customer has it already, or because the legal name, without the white space around it, has
      -- fewer than 2 or more than 200 code units, or a trade name that is not empty has fewer than 1 or more than 200; or no
      -- customer had the normalized code, and the new ACTIVE customer is stored under a new id, its code
      -- and names well-formed, nothing else changed. The invariant is kept either way.
      pub create_customer-Creates :
          IsInjective env.next_id → IsValid w → Creates (create_customer env command actor w)
      create_customer-Creates inj h =
          elim (Result-cases (create_code env.to_upper_case command.code)) [
            | inr (f, bad) ↦
                subst Creates (sym (create_malformed f bad))
                  (refl, refl, h, inl (code_error command.code f bad, bad))
            | inl (code, normal) ↦ elim (Option-cases (find (has_code code) w.db.customers)) [
              | inr (c, taken) ↦
                  subst Creates (sym (create_taken code c normal taken))
                    (refl, refl, h, inr (code, normal, inl (refl, (c, taken))))
              | inl free ↦ elim (Result-cases (build_customer env command w).0) [
                | inr (f, bad) ↦ subst Creates (sym (create_unnamed code f normal free bad)) (
                  refl,
                  refl,
                  IsTable-later _ _ _ _ h (omega arith),
                  inr (code, normal, inr (build_error code f normal bad)),
                )
                | inl (c, b) ↦ accepted-Creates code c inj h normal free b
              ]
            ]
          ]
