-- ===== src/CustomerManagement/UseCases/Calls.antt =====
-- Any sequence of calls of the use cases that write to the store of customers.
use pos_cloud.Common.{
  ◌≡◌, refl, ◌≢◌, ◌∙◌, Bool, false, some, List, [], ◌∷◌, Result, ok, err, arith, ap, subst, sym,
}
use pos_cloud.Common.Text.{Text}
use pos_cloud.Common.JsMap.{get}
use pos_cloud.Common.JsMap.Slots.{IsInjective}
use pos_cloud.Common.JsMap.Kept.{
  Stays, Stays-same, Stays-set, IsKept, IsKept-same, IsKept-trans, IsKept-set,
}
use pos_cloud.Kernel.{Env, World, AuditActorContext}
use pos_cloud.CustomerManagement.Status.{CustomerStatus, inactive, CustomerError, same_status}
use pos_cloud.CustomerManagement.Customer.{Customer}
use pos_cloud.CustomerManagement.UseCases.{
  Db, CreateCustomerCommand, create_customer, change_customer_status,
}
use pos_cloud.CustomerManagement.UseCases.Create.{IsValid, Creates, create_customer-Creates}
use pos_cloud.CustomerManagement.UseCases.Change.{Changes, change_customer-Changes}

-- A call with its arguments.
pub data Call : Type 0 where
  creates : CreateCustomerCommand → AuditActorContext → Call
  changes_status : Text → CustomerStatus → AuditActorContext → Call

-- what a call leaves, whether it returns or throws
unfoldable pub serve : Env → Call → World Db → World Db
serve env (creates command actor) w = (create_customer env command actor w).1
serve env (changes_status id status actor) w = (change_customer_status env id status actor w).1

unfoldable pub serve_all : Env → List Call → World Db → World Db
serve_all env [] w = w
serve_all env (call ∷ calls) w = serve_all env calls (serve env call w)

abbrev pub is_terminal : Customer → Bool
is_terminal c = same_status c.status inactive

not_terminal : (c : Customer) → c.status ≢ inactive → is_terminal c ≡ false
unfolding same_status
not_terminal c h = ground arith

some_injective : {A : Type 0} (a b : A) → some a ≡ some b → a ≡ b
some_injective a b h = cc h

module _ (env : Env) (w : World Db) where
  -- The invariant holds, customers that were INACTIVE are as they were, and none is removed.
  abbrev pub Served : World Db → Type 0
  Served u =
      IsValid env u
      × IsKept is_terminal w.db.customers u.db.customers
      × Stays w.db.customers u.db.customers

  created :
      (command : CreateCustomerCommand) (o : Result CustomerError Customer × World Db)
      → IsValid env w
      → Creates env command w o
      → Served o.1
  created command (ok c, w') h (new, unused, whole, there, valid) = (
    valid,
    subst (λ (d : Db). IsKept is_terminal w.db.customers d.customers) (sym whole)
        (IsKept-set is_terminal c.id c w.db.customers λ u there.
          absurd (cc (there, ap (λ k. get k w.db.customers) new.id, h.fresh w.ids (omega arith)))),
    subst (λ (d : Db). Stays w.db.customers d.customers) (sym whole)
        (Stays-set c.id c w.db.customers),
  )
  created command (err f, w') h (same, trail, valid, why) = (
    valid,
    IsKept-same is_terminal _ _ (ap (λ (d : Db). d.customers) same),
    Stays-same _ _ (ap (λ (d : Db). d.customers) same),
  )

  changed :
      (x : Text) (next : CustomerStatus) (actor : AuditActorContext)
      (o : Result CustomerError Customer × World Db)
      → IsValid env w
      → Changes env x next actor w o
      → Served o.1
  changed x next actor (ok c', w') h (c, found, move, moved, whole, valid) = (
    valid,
    subst (λ (d : Db). IsKept is_terminal w.db.customers d.customers) (sym whole)
        (IsKept-set is_terminal x c' w.db.customers λ u there.
          subst (λ y. is_terminal y ≡ false) (some_injective c u (sym found ∙ there))
            (not_terminal c move.0)),
    subst (λ (d : Db). Stays w.db.customers d.customers) (sym whole)
        (Stays-set x c' w.db.customers),
  )
  changed x next actor (err f, w') h (same, why) = subst Served (sym same) (
    h,
    IsKept-same is_terminal w.db.customers w.db.customers refl,
    Stays-same w.db.customers w.db.customers refl,
  )

  pub served : (call : Call) → IsInjective env.next_id → IsValid env w → Served (serve env call w)
  unfolding serve
  served (creates command actor) inj h =
      created command (create_customer env command actor w) h
        (create_customer-Creates env command w actor inj h)
  served (changes_status x next actor) inj h =
      changed x next actor (change_customer_status env x next actor w) h
        (change_customer-Changes env x next actor w h)

-- After any sequence of calls the invariant holds: among others no two customers have the same
-- code, and codes and names are well-formed. And every customer that was INACTIVE is as it was.
pub serve_all-Customers :
    (env : Env) (calls : List Call) (w : World Db)
    → IsInjective env.next_id
    → IsValid env w
    → IsValid env (serve_all env calls w)
      × IsKept is_terminal w.db.customers (serve_all env calls w).db.customers
unfolding serve_all
serve_all-Customers env [] w inj h = (h, IsKept-same is_terminal w.db.customers w.db.customers refl)
serve_all-Customers env (call ∷ calls) w inj h =
    let (h', kept, stays) = served env w call inj h in
    let (h'', later) = serve_all-Customers env calls (serve env call w) inj h' in
    (
      h'',
      IsKept-trans is_terminal w.db.customers (serve env call w).db.customers
          (serve_all env calls (serve env call w)).db.customers kept later,
    )
