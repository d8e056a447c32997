-- ===== src/Licensing/UseCases/Create.antt =====
-- What the creation of a license stores.
use pos_cloud.Common.{
  ℕ, suc, ◌≤◌, ◌≡◌, refl, inl, inr, List, [], ◌∷◌, Result, ok, err, arith, ap, subst, sym, ◌∙◌,
  Result-cases,
}
use pos_cloud.Common.Text.{Text}
use pos_cloud.Common.JsMap.{set}
use pos_cloud.Kernel.{Env, World, AuditActorContext, record_audit}
use pos_cloud.Licensing.Status.{active, LicenseError}
use pos_cloud.Licensing.License
use pos_cloud.Licensing.License.{
  License, CreateLicenseInput, ReplaceEntitlementItemInput, replace_entitlements, add_entitlements,
  JsNumber, natural, other_number, create_number, validate_edition_model, validate_validity,
  validate_max_installations,
}
use pos_cloud.Licensing.License.WellFormed.{IsWellFormed, replace-IsWellFormed, replace_same_db}
use pos_cloud.Licensing.UseCases.{Db, Ports, check_new, create_license}
use pos_cloud.Licensing.UseCases.Terms.{add_ids, add-HasTerms}
use pos_cloud.Licensing.UseCases.Invariant.{AreWellFormed, set-AreWellFormed, validated}

add_same_db :
    (env : Env) (items : List ReplaceEntitlementItemInput) (l : License) (w : World Db)
    → (add_entitlements env items l w).1.db ≡ w.db
unfolding add_entitlements
add_same_db env [] l w = refl
add_same_db env (item ∷ items) l w = replace_same_db env (item ∷ items) l w

add-IsWellFormed :
    (env : Env) (items : List ReplaceEntitlementItemInput) (l l' : License) (w : World Db)
    → IsWellFormed l
    → (add_entitlements env items l w).0 ≡ ok l'
    → IsWellFormed l'
unfolding add_entitlements
add-IsWellFormed env [] l l' w q h = let e : l ≡ l' = cc h in subst IsWellFormed e q
add-IsWellFormed env (item ∷ items) l l' w q h = replace-IsWellFormed env (item ∷ items) l l' w q h

module _ (env : Env) (id : Text) (input : CreateLicenseInput) (w : World Db) where
  abbrev based : ℕ → Text → License
  based max number = record {
    id = id;
    customer_id = input.customer_id;
    license_number = number;
    edition = input.edition;
    license_model = input.license_model;
    status = active;
    valid_from = input.valid_from;
    valid_until = input.valid_until;
    max_installations = max;
    created_at = env.clock w.ticks;
    updated_at = env.clock w.ticks;
    entitlements = [];
  }

  abbrev ticked : World Db
  ticked = record w { ticks = suc w.ticks }

  module _ (max : ℕ) (number : Text) where
    create_added :
        validate_edition_model input.edition input.license_model ≡ ok tt
        → validate_validity input.license_model input.valid_from input.valid_until ≡ ok tt
        → validate_max_installations input.max_installations ≡ ok max
        → create_number env.to_upper_case input.license_number ≡ ok number
        → License.create env id input w
          ≡ add_entitlements env input.entitlements (based max number) ticked
    unfolding License.create
    create_added a b c d = rw (a, b, c, d) refl

  -- The license as it is created.
  pub record IsNew (l : License) : Type 0 where
    pub named : l.id ≡ id
    pub normalized : create_number env.to_upper_case input.license_number ≡ ok l.license_number
    pub customer : l.customer_id ≡ input.customer_id
    pub well_formed : IsWellFormed l

  abbrev pub Builds : Result LicenseError License × World Db → Type 0
  Builds (ok l, w') = IsNew l × (w'.db ≡ w.db) × (w.ids ≤ w'.ids)
  Builds (err f, w') = (w'.db ≡ w.db) × (w.ids ≤ w'.ids)

  added-Builds :
      (o : Result LicenseError License × World Db)
      → o.1.db ≡ w.db
      → w.ids ≤ o.1.ids
      → ((l : License) → o.0 ≡ ok l → IsNew l)
      → Builds o
  added-Builds (ok l, w') same more good = (good l refl, same, more)
  added-Builds (err f, w') same more good = (same, more)

  invalid_model :
      (f : LicenseError)
      → validate_edition_model input.edition input.license_model ≡ err f
      → License.create env id input w ≡ (err f, w)
  unfolding License.create
  invalid_model f a = rw a refl

  invalid_dates :
      (f : LicenseError)
      → validate_edition_model input.edition input.license_model ≡ ok tt
      → validate_validity input.license_model input.valid_from input.valid_until ≡ err f
      → License.create env id input w ≡ (err f, w)
  unfolding License.create
  invalid_dates f a b = rw (a, b) refl

  invalid_max :
      (f : LicenseError)
      → validate_edition_model input.edition input.license_model ≡ ok tt
      → validate_validity input.license_model input.valid_from input.valid_until ≡ ok tt
      → validate_max_installations input.max_installations ≡ err f
      → License.create env id input w ≡ (err f, w)
  unfolding License.create
  invalid_max f a b c = rw (a, b, c) refl

  invalid_number :
      (max : ℕ) (f : LicenseError)
      → validate_edition_model input.edition input.license_model ≡ ok tt
      → validate_validity input.license_model input.valid_from input.valid_until ≡ ok tt
      → validate_max_installations input.max_installations ≡ ok max
      → create_number env.to_upper_case input.license_number ≡ err f
      → License.create env id input w ≡ (err f, ticked)
  unfolding License.create
  invalid_number max f a b c d = rw (a, b, c, d) refl

  added-IsNew :
      (max : ℕ) (number : Text) (l : License)
      → create_number env.to_upper_case input.license_number ≡ ok number
      → IsWellFormed (based max number)
      → (add_entitlements env input.entitlements (based max number) ticked).0 ≡ ok l
      → IsNew l
  added-IsNew max number l d q h =
      let t = add-HasTerms env input.entitlements (based max number) l ticked h in
      record {
        named = t.id;
        normalized = d ∙ ap ok (sym t.number);
        customer = t.customer;
        well_formed = add-IsWellFormed env input.entitlements (based max number) l ticked q h;
      }

  pub create-Builds : Builds (License.create env id input w)
  create-Builds = elim (Result-cases (validate_edition_model input.edition input.license_model)) [
    | inr (f, a) ↦ subst Builds (sym (invalid_model f a)) (refl, omega arith)
    | inl (u, a) ↦
        elim (Result-cases
          (validate_validity input.license_model input.valid_from input.valid_until)) [
            | inr (f, b) ↦ subst Builds (sym (invalid_dates f a b)) (refl, omega arith)
            | inl (v, b) ↦
                elim (Result-cases (validate_max_installations input.max_installations)) [
                  | inr (f, c) ↦ subst Builds (sym (invalid_max f a b c)) (refl, omega arith)
                  | inl (max, c) ↦
                      elim (Result-cases (create_number env.to_upper_case input.license_number)) [
                        | inr (f, d) ↦
                            subst Builds (sym (invalid_number max f a b c d)) (refl, omega arith)
                        | inl (number, d) ↦
                            let (validity, capacity) =
                              validated input.edition input.license_model input.valid_from max
                                input.valid_until input.max_installations a b c in
                            let q : IsWellFormed (based max number) = record {
                              validity = validity;
                              capacity = capacity;
                              distinct = tt;
                            } in
                            subst Builds (sym (create_added max number a b c d)) (
                              added-Builds
                                (add_entitlements env input.entitlements (based max number) ticked)
                                (add_same_db env input.entitlements (based max number) ticked)
                                (add_ids env input.entitlements (based max number) ticked)
                                (λ l h. added-IsNew max number l d q h))
                      ]
                ]
          ]
  ]

module _ (ports : Ports) (command : CreateLicenseInput) (actor : AuditActorContext)
    (w : World Db) where
  pub refused :
      (f : LicenseError)
      → (check_new ports command w).0 ≡ err f
      → (create_license ports command actor w).1.db ≡ w.db
  unfolding create_license check_new
  refused f h = ground arith

  abbrev pub with_id : World Db
  with_id = record w { ids = suc w.ids }

  pub failed :
      (u : Unit {0}) (f : LicenseError) (w' : World Db)
      → (check_new ports command w).0 ≡ ok u
      → License.create ports.env (ports.env.next_id w.ids) command with_id ≡ (err f, w')
      → (create_license ports command actor w).1.db ≡ w'.db
  unfolding create_license check_new
  failed u f w' h k = ground arith

  pub stored :
      (u : Unit {0}) (l : License) (w' : World Db)
      → (check_new ports command w).0 ≡ ok u
      → License.create ports.env (ports.env.next_id w.ids) command with_id ≡ (ok l, w')
      → (create_license ports command actor w).1.db.licenses ≡ set l.id l w'.db.licenses
  unfolding create_license check_new record_audit
  stored u l w' h k = ground arith

  built :
      (u : Unit {0}) (o : Result LicenseError License × World Db)
      → (check_new ports command w).0 ≡ ok u
      → License.create ports.env (ports.env.next_id w.ids) command with_id ≡ o
      → Builds ports.env (ports.env.next_id w.ids) command with_id o
      → AreWellFormed w.db.licenses
      → AreWellFormed (create_license ports command actor w).1.db.licenses
  built u (err f, w') h k (same, more) q =
      subst (λ (d : Db). AreWellFormed d.licenses) (sym (failed u f w' h k ∙ same)) q
  built u (ok l, w') h k (new, same, more) q =
      subst AreWellFormed (sym (stored u l w' h k ∙ ap (λ d. set l.id l d.licenses) same))
        (set-AreWellFormed l w.db.licenses q new.well_formed)

  -- Creating a license, whatever it answers, leaves every stored license well-formed: a BASIC
  -- license is PERPETUAL and has no end, a PREMIUM one is a SUBSCRIPTION that ends after it begins,
  -- at least one installation is allowed, and no code stands twice among the entitlements.
  pub create-AreWellFormed :
      AreWellFormed w.db.licenses
      → AreWellFormed (create_license ports command actor w).1.db.licenses
  create-AreWellFormed q = elim (Result-cases (check_new ports command w).0) [
    | inr (f, h) ↦ subst (λ (d : Db). AreWellFormed d.licenses) (sym (refused f h)) q
    | inl (u, h) ↦
        built u (License.create ports.env (ports.env.next_id w.ids) command with_id) h refl
          (create-Builds ports.env (ports.env.next_id w.ids) command with_id) q
  ]
