-- ===== src/Installations/Create/Outcome.antt =====
-- Creating an installation: what the use case has done, by how it ended.
use pos_cloud.Common.{
  suc, ◌<◌, ◌≡◌, refl, inl, inr, true, false, none, some, arith, subst, sym, Result, ok, err,
  Result-cases, leb,
}
use pos_cloud.Common.Text.{Text, ◌===◌, ===_iff, ===_refl}
use pos_cloud.Common.JsMap.{get, set, find, count}
use pos_cloud.Common.JsMap.Laws.{get-set_self, count-set}
use pos_cloud.Common.JsMap.Slots.{IsInjective}
use pos_cloud.Kernel.{World, AuditActorContext, record_audit}
use pos_cloud.Installations.Status.{pending, same_status}
use pos_cloud.Installations.Errors.{InstallationError}
use pos_cloud.Installations.Installation
use pos_cloud.Installations.Installation.{Installation, create_code}
use pos_cloud.Installations.Store.{
  Db, Ports, CustomerSummary, LicenseSummary, has_code, counts_for_license,
}
use pos_cloud.Installations.Invariant.{IsStamped, IsValid, IsValid-later, add_installation-IsValid}
use pos_cloud.Installations.Create.{
  CreateInstallationCommand, created_event, save_within_capacity, check_references,
  build_installation, create_installation,
}

module _ (ports : Ports) where
  -- What the checks of a successful call have found.
  pub record IsAllowed (command : CreateInstallationCommand) (w : World Db) (l : LicenseSummary)
      (code : Text) : Type 0 where
    pub customer : CustomerSummary
    pub found_customer : ports.find_customer_summary command.customer_id ≡ some customer
    pub active : customer.active ≡ true
    pub found_license : ports.find_license_summary command.license_id ≡ some l
    pub owner : l.customer_id ≡ command.customer_id
    pub usable : l.usable ≡ true
    pub normalized : create_code ports.env.to_upper_case command.installation_code ≡ ok code
    pub unused : find (has_code code) w.db.installations ≡ none
    pub capacity :
        count (counts_for_license command.license_id) w.db.installations < l.max_installations

  -- The installation as it is created.
  pub record IsNew (command : CreateInstallationCommand) (w : World Db) (code : Text)
      (i : Installation) : Type 0 where
    pub id : i.id ≡ ports.env.next_id w.ids
    pub normalized : i.installation_code ≡ code
    pub license : i.license_id ≡ command.license_id
    pub customer : i.customer_id ≡ command.customer_id
    pub status : i.status ≡ pending
    pub registered : i.registered_at ≡ none

  module _ (command : CreateInstallationCommand) (w : World Db) where
    -- The world after the installation is built.
    abbrev built : World Db
    built = record w { ids = suc w.ids; ticks = suc w.ticks }

    abbrev stored : Installation → World Db
    stored i = record built { db = record (w.db) { installations = set i.id i w.db.installations } }

    references_sound :
        (l : LicenseSummary)
        → (check_references ports command w).0 ≡ ok l
        → (c : CustomerSummary) × (ports.find_customer_summary command.customer_id ≡ some c)
          × (c.active ≡ true)
          × (ports.find_license_summary command.license_id ≡ some l)
          × ((l.customer_id === command.customer_id) ≡ true)
          × (l.usable ≡ true)
    unfolding check_references
    references_sound l h = ground arith

    references_same : (check_references ports command w).1 ≡ w
    unfolding check_references
    references_same = ground arith

    build_sound :
        (code : Text) (i : Installation)
        → create_code ports.env.to_upper_case command.installation_code ≡ ok code
        → (build_installation ports command w).0 ≡ ok i
        → IsNew command w code i
    unfolding build_installation Installation.create
    build_sound code i h b = ground arith

    save_equation :
        (l : LicenseSummary) (code : Text) (i : Installation)
        → leb l.max_installations (count (counts_for_license command.license_id) w.db.installations)
          ≡ false
        → find (has_code code) w.db.installations ≡ none
        → save_within_capacity command l code i built ≡ (ok tt, stored i)
    unfolding save_within_capacity
    save_equation l code i c f = ground arith

    save_sound :
        (l : LicenseSummary) (code : Text) (i : Installation)
        → (save_within_capacity command l code i built).0 ≡ ok tt
        → (leb l.max_installations
              (count (counts_for_license command.license_id) w.db.installations)
            ≡ false)
          × (find (has_code code) w.db.installations ≡ none)
    unfolding save_within_capacity
    save_sound l code i h = ground arith

    -- What a call has done, by how it ended.
    abbrev pub Creates : Result InstallationError Installation × World Db → Type 0
    Creates (ok i, w') =
        (l : LicenseSummary) × (code : Text) × IsAllowed command w l code
        × IsNew command w code i
        × (get i.id w'.db.installations ≡ some i)
        × (count (counts_for_license command.license_id) w'.db.installations
            ≡ suc (count (counts_for_license command.license_id) w.db.installations))
        × (w'.db ≡ record (w.db) { installations = set i.id i w.db.installations })
        × IsValid ports.env.next_id w'.ids w'.db
    Creates (err f, w') =
        (w'.db ≡ w.db) × (w'.trail ≡ w.trail) × IsValid ports.env.next_id w'.ids w'.db

    counted :
        (code : Text) (i : Installation)
        → IsNew command w code i
        → get i.id w.db.installations ≡ none
        → count (counts_for_license command.license_id) (set i.id i w.db.installations)
          ≡ suc (count (counts_for_license command.license_id) w.db.installations)
    unfolding same_status
    counted code i n absent = ground (
      arith,
      count-set (counts_for_license command.license_id) i.id i w.db.installations,
      n.license,
      n.status,
      ===_refl command.license_id,
    )

    new-IsStamped : (code : Text) (i : Installation) → IsNew command w code i → IsStamped i
    new-IsStamped code i n =
        (λ p. n.registered, λ q. elim q [ inl a ↦ cc (n.status, a) | inr a ↦ cc (n.status, a) ])

    module _ (actor : AuditActorContext) where
      create_refused :
          (f : InstallationError)
          → (check_references ports command w).0 ≡ err f
          → create_installation ports command actor w ≡ (err f, w)
      unfolding create_installation
      create_refused f h = ground (arith, references_same)

      create_malformed :
          (l : LicenseSummary) (f : InstallationError)
          → (check_references ports command w).0 ≡ ok l
          → create_code ports.env.to_upper_case command.installation_code ≡ err f
          → create_installation ports command actor w ≡ (err f, w)
      unfolding create_installation
      create_malformed l f h k = ground (arith, references_same)

      create_unnamed :
          (l : LicenseSummary) (code : Text) (f : InstallationError)
          → (check_references ports command w).0 ≡ ok l
          → create_code ports.env.to_upper_case command.installation_code ≡ ok code
          → (build_installation ports command w).0 ≡ err f
          → create_installation ports command actor w ≡ (err f, built)
      unfolding create_installation build_installation
      create_unnamed l code f h k b = ground (arith, references_same)

      create_full :
          (l : LicenseSummary) (code : Text) (i : Installation) (f : InstallationError)
          → (check_references ports command w).0 ≡ ok l
          → create_code ports.env.to_upper_case command.installation_code ≡ ok code
          → (build_installation ports command w).0 ≡ ok i
          → (save_within_capacity command l code i built).0 ≡ err f
          → create_installation ports command actor w ≡ (err f, built)
      unfolding create_installation build_installation save_within_capacity
      create_full l code i f h k b s = ground (arith, references_same)

      create_accepted :
          (l : LicenseSummary) (code : Text) (i : Installation)
          → (check_references ports command w).0 ≡ ok l
          → create_code ports.env.to_upper_case command.installation_code ≡ ok code
          → (build_installation ports command w).0 ≡ ok i
          → save_within_capacity command l code i built ≡ (ok tt, stored i)
          → create_installation ports command actor w ≡ (
            ok i,
            (record_audit ports.env {E = InstallationError} (created_event actor i) (stored i)).1,
          )
      unfolding create_installation build_installation record_audit
      create_accepted l code i h k b s = ground (arith, references_same)

      accepted-Creates :
          (l : LicenseSummary) (code : Text) (i : Installation)
          → IsInjective ports.env.next_id
          → IsValid ports.env.next_id w.ids w.db
          → (check_references ports command w).0 ≡ ok l
          → create_code ports.env.to_upper_case command.installation_code ≡ ok code
          → (build_installation ports command w).0 ≡ ok i
          → (save_within_capacity command l code i built).0 ≡ ok tt
          → Creates (create_installation ports command actor w)
      unfolding record_audit
      accepted-Creates l code i inj h passed normal built_ok saved =
          let (c, found_c, active, found_l, owner, usable) = references_sound l passed in
          let n = build_sound code i normal built_ok in
          let (room, unused) = save_sound l code i saved in
          let absent : get i.id w.db.installations ≡ none =
            rw n.id (h.installations_fresh w.ids (omega arith)) in
          subst Creates
            (sym (
              create_accepted l code i passed normal built_ok (save_equation l code i room unused)))
            (
              l,
              code,
              record {
                customer = c;
                found_customer = found_c;
                active = active;
                found_license = found_l;
                owner = (===_iff l.customer_id command.customer_id).0 owner;
                usable = usable;
                normalized = normal;
                unused = unused;
                capacity = ground arith;
              },
              n,
              get-set_self i.id i w.db.installations,
              counted code i n absent,
              refl,
              IsValid-later _
                  (add_installation-IsValid _ i inj h n.id (rw n.normalized unused)
                    (new-IsStamped code i n))
                  (omega arith),
            )

      -- Creating an installation fails with stores and trail unchanged, or all of this holds: the
      -- customer is active, the license is usable and the customer's, fewer installations than the
      -- license allows were counted, no installation had the normalized code; the new pending
      -- installation is stored under a new id, the license has one more, and nothing else
      -- has changed. The invariant is kept either way.
      pub create-Creates :
          IsInjective ports.env.next_id
          → IsValid ports.env.next_id w.ids w.db
          → Creates (create_installation ports command actor w)
      create-Creates inj h = elim (Result-cases (check_references ports command w).0) [
        | inr (f, refused) ↦ subst Creates (sym (create_refused f refused)) (refl, refl, h)
        | inl (l, passed) ↦
            elim (Result-cases (create_code ports.env.to_upper_case command.installation_code)) [
              | inr (f, malformed) ↦
                  subst Creates (sym (create_malformed l f passed malformed)) (refl, refl, h)
              | inl (code, normal) ↦ elim (Result-cases (build_installation ports command w).0) [
                | inr (f, unnamed) ↦
                    subst Creates (sym (create_unnamed l code f passed normal unnamed))
                      (refl, refl, IsValid-later _ h (omega arith))
                | inl (i, named) ↦
                    elim (Result-cases (save_within_capacity command l code i built).0) [
                      | inr (f, full) ↦
                          subst Creates (sym (create_full l code i f passed normal named full))
                            (refl, refl, IsValid-later _ h (omega arith))
                      | inl (u, saved) ↦ accepted-Creates l code i inj h passed normal named saved
                    ]
              ]
            ]
      ]
