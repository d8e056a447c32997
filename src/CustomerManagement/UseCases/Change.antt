-- ===== src/CustomerManagement/UseCases/Change.antt =====
-- Changing the status of a customer: what the use case has done, by how it ended.
use pos_cloud.Common.{
  ℕ, suc, ◌≡◌, refl, ◌≢◌, ◌∙◌, ◌⊎◌, inl, inr, true, false, none, some, [], ◌∷◌, Result, ok, err,
  arith, ap, subst, sym, Bool-cases, Option-cases,
}
use pos_cloud.Common.Text.{Text, text}
use pos_cloud.Common.JsMap.{get, set}
use pos_cloud.Common.JsMap.Laws.{key_of_get}
use pos_cloud.Common.JsMap.Table.{IsTable-later, update-IsTable}
use pos_cloud.Kernel.{Env, World, AuditActorContext, record_audit, string_value}
use pos_cloud.CustomerManagement.Status.{
  CustomerStatus, inactive, CustomerError, customer_not_found, invalid_customer_status_transition,
  is_customer_status_transition_allowed, status_text,
}
use pos_cloud.CustomerManagement.Customer.{Customer, change_status}
use pos_cloud.CustomerManagement.UseCases.{Db, customer_event, apply_status, change_customer_status}
use pos_cloud.CustomerManagement.UseCases.Create.{IsValid}

-- INACTIVE is never left, and no status changes into itself.
abbrev pub IsMove : CustomerStatus → CustomerStatus → Type 0
IsMove from to = (from ≢ inactive) × (from ≢ to)

transition_sound :
    (from to : CustomerStatus)
    → is_customer_status_transition_allowed from to ≡ true
    → IsMove from to
unfolding is_customer_status_transition_allowed
transition_sound from to h = (λ e. ground arith, λ e. ground arith)

transition_complete :
    (from to : CustomerStatus)
    → IsMove from to
    → is_customer_status_transition_allowed from to ≡ true
unfolding is_customer_status_transition_allowed
transition_complete from to (a, b) = ground arith

module _ (env : Env) (x : Text) (next : CustomerStatus) (actor : AuditActorContext)
    (w : World Db) where
  abbrev t : ℕ
  t = env.clock w.ticks

  -- What a call has done, by how it ended.
  abbrev pub Changes : Result CustomerError Customer × World Db → Type 0
  Changes (ok c', w') =
      (c : Customer) × (get x w.db.customers ≡ some c)
      × IsMove c.status next
      × (c' ≡ record c { status = next; updated_at = t })
      × (w'.db ≡ record (w.db) { customers = set x c' w.db.customers })
      × IsValid env w'
  Changes (err f, w') =
      (w' ≡ w)
      × (((f ≡ customer_not_found) × (get x w.db.customers ≡ none))
          ⊎ ((c : Customer) × (get x w.db.customers ≡ some c)
              × (f ≡ invalid_customer_status_transition c.status next)
              × ¬ IsMove c.status next))

  change_missing :
      get x w.db.customers ≡ none
      → change_customer_status env x next actor w ≡ (err customer_not_found, w)
  unfolding change_customer_status
  change_missing missing = ground arith

  change_refused :
      (c : Customer)
      → get x w.db.customers ≡ some c
      → is_customer_status_transition_allowed c.status next ≡ false
      → change_customer_status env x next actor w
        ≡ (err (invalid_customer_status_transition c.status next), w)
  unfolding change_customer_status apply_status
  change_refused c found refused = ground arith

  abbrev changed : Customer → Customer
  changed c = record c { status = next; updated_at = t }

  abbrev after : Customer → World Db
  after c = record w {
    ticks = suc w.ticks;
    db = record (w.db) { customers = set c.id (changed c) w.db.customers };
  }

  change_accepted :
      (c : Customer)
      → get x w.db.customers ≡ some c
      → is_customer_status_transition_allowed c.status next ≡ true
      → change_customer_status env x next actor w ≡ (
        ok (changed c),
        (record_audit env {E = CustomerError}
            (customer_event actor (text "customer.status.changed") c.id (
              (text "from", string_value (status_text c.status))
              ∷ (text "to", string_value (status_text next))
              ∷ []))
            (after c)).1,
      )
  unfolding change_customer_status apply_status change_status record_audit
  change_accepted c found allowed = ground arith

  accepted-Changes :
      (c : Customer)
      → IsValid env w
      → get x w.db.customers ≡ some c
      → c.id ≡ x
      → is_customer_status_transition_allowed c.status next ≡ true
      → Changes (change_customer_status env x next actor w)
  unfolding record_audit
  accepted-Changes c h found same allowed =
      let good = h.good x c found in
      subst Changes (sym (change_accepted c found allowed)) (
        c,
        found,
        transition_sound c.status next allowed,
        refl,
        ap (λ y. record (w.db) { customers = set y (changed c) w.db.customers }) same,
        IsTable-later _ _ _ _
            (update-IsTable _ _ _ _ (changed c) c h (ap (λ y. get y w.db.customers) same ∙ found)
              refl
              (record {
                code = good.code;
                legal_name = good.legal_name;
                trade_name = good.trade_name;
              }))
            (omega arith),
      )

  -- Changing a status fails with nothing changed, because the customer is unknown or because the
  -- status is INACTIVE or the one asked for; or the customer is stored with the new status and the
  -- time of the change, and nothing else of the store differs. The invariant is kept.
  pub change_customer-Changes : IsValid env w → Changes (change_customer_status env x next actor w)
  change_customer-Changes h = elim (Option-cases (get x w.db.customers)) [
    | inl missing ↦ subst Changes (sym (change_missing missing)) (refl, inl (refl, missing))
    | inr (c, found) ↦ elim (Bool-cases (is_customer_status_transition_allowed c.status next)) [
      | inl allowed ↦ accepted-Changes c h found (key_of_get _ _ _ c h.keyed found) allowed
      | inr refused ↦
          subst Changes (sym (change_refused c found refused))
            (refl, inr (c, found, refl, λ m. cc (transition_complete c.status next m, refused)))
    ]
  ]
