-- ===== src/Licensing/UseCases/Calls/Reach.antt =====
-- What holds of the licenses after any sequence of calls.
use pos_cloud.Common.{
  ℕ, suc, ◌≤◌, ◌≡◌, refl, ◌∙◌, none, some, List, [], ◌∷◌, Result, ok, err, All, arith, ap, subst,
  sym, inl, inr, Result-cases, Option-cases,
}
use pos_cloud.Common.Text.{Text}
use pos_cloud.Common.JsMap.{get, set, find}
use pos_cloud.Common.JsMap.Laws.{key_of_get}
use pos_cloud.Common.JsMap.Slots.{IsInjective}
use pos_cloud.Common.JsMap.Table.{IsTable, IsTable-later, insert-IsTable, update-IsTable}
use pos_cloud.Installations.Store.{CustomerSummary}
use pos_cloud.Kernel.{World, AuditActorContext, record_audit}
use pos_cloud.Licensing.Status.{LicenseStatus, LicenseError}
use pos_cloud.Licensing.License
use pos_cloud.Licensing.License.{
  License, CreateLicenseInput, ReplaceEntitlementItemInput, create_number, change_status,
  replace_entitlements,
}
use pos_cloud.Licensing.License.WellFormed.{
  IsWellFormed, replace-IsWellFormed, change_sound, change-IsWellFormed,
}
use pos_cloud.Licensing.UseCases.{
  Db, Ports, has_number, check_new, apply_status, create_license, change_license_status,
  replace_license_entitlements,
}
use pos_cloud.Licensing.UseCases.Invariant.{
  change_missing, change_refused, change_stores, replace_missing, replace_refused, replace_stores,
}
use pos_cloud.Licensing.UseCases.Create.{
  IsNew, Builds, create-Builds, with_id, refused, failed, stored,
}
use pos_cloud.Licensing.UseCases.Terms.{
  HasTerms, KeepsTerms, KeepsTerms-same, KeepsTerms-trans, KeepsTerms-set, replace_ids,
  replace-HasTerms,
}
use pos_cloud.Licensing.UseCases.Calls.{Call, creates, changes_status, replaces, serve, serve_all}

some_injective : {A : Type 0} (a b : A) → some a ≡ some b → a ≡ b
some_injective a b h = cc h

-- The customers of licenses are known, where the port answers for known customers alone.
module _ (knows : Text → Type 0) where
  abbrev pub Answers : Ports → Type 0
  Answers ports =
      (id : Text) (s : CustomerSummary) → ports.find_customer_summary id ≡ some s → knows id

  abbrev pub IsGood : License → Type 0
  IsGood l = IsWellFormed l × knows l.customer_id

  -- Licenses are stored under their ids, ids to come are unused, no two licenses have the same
  -- number, and every license is well-formed and of a known customer.
  abbrev pub IsValid : (ℕ → Text) → World Db → Type 0
  IsValid next_id w =
      IsTable (λ (l : License). l.id) (λ l. l.license_number) IsGood next_id w.ids w.db.licenses

  module _ (next_id : ℕ → Text) (w : World Db) where
    -- The invariant holds, and every license is still stored with its terms.
    abbrev pub Grows : World Db → Type 0
    Grows w' = IsValid next_id w' × KeepsTerms w.db.licenses w'.db.licenses

    grow_same : (w' : World Db) → IsValid next_id w → w'.db ≡ w.db → w.ids ≤ w'.ids → Grows w'
    grow_same w' h same more = (
      subst
          (λ (d : Db).
            IsTable (λ (l : License). l.id) (λ l. l.license_number) IsGood next_id w'.ids
              d.licenses)
          (sym same) (IsTable-later _ _ _ _ h more),
      KeepsTerms-same w.db.licenses w'.db.licenses (ap (λ (d : Db). d.licenses) same),
    )

    -- A license that is replaced by one with its terms.
    grow_update :
        (l l' : License) (w' : World Db)
        → IsValid next_id w
        → get l.id w.db.licenses ≡ some l
        → HasTerms l l'
        → IsWellFormed l'
        → w'.db.licenses ≡ set l'.id l' w.db.licenses
        → w.ids ≤ w'.ids
        → Grows w'
    grow_update l l' w' h found terms good whole more =
        let here : get l'.id w.db.licenses ≡ some l =
          ap (λ k. get k w.db.licenses) terms.id ∙ found in
        (
          IsTable-later _ _ _ _
              (subst
                (λ m.
                  IsTable (λ (x : License). x.id) (λ x. x.license_number) IsGood next_id w.ids m)
                (sym whole)
                (update-IsTable _ _ _ _ l' l h here terms.number
                  (good, rw terms.customer (h.good l.id l found).1)))
              more,
          subst (KeepsTerms w.db.licenses) (sym whole) (
              KeepsTerms-set l' w.db.licenses l'.id λ u there.
                subst (λ x. HasTerms x l') (some_injective l u (sym here ∙ there)) terms),
        )

  module _ (ports : Ports) (command : CreateLicenseInput) (actor : AuditActorContext)
      (w : World Db) where
    refused_ids :
        (f : LicenseError)
        → (check_new ports command w).0 ≡ err f
        → (create_license ports command actor w).1.ids ≡ w.ids
    unfolding create_license check_new
    refused_ids f h = ground arith

    failed_ids :
        (u : Unit {0}) (f : LicenseError) (w' : World Db)
        → (check_new ports command w).0 ≡ ok u
        → License.create ports.env (ports.env.next_id w.ids) command (with_id ports command actor w)
          ≡ (err f, w')
        → (create_license ports command actor w).1.ids ≡ w'.ids
    unfolding create_license check_new
    failed_ids u f w' h k = ground arith

    stored_ids :
        (u : Unit {0}) (l : License) (w' : World Db)
        → (check_new ports command w).0 ≡ ok u
        → License.create ports.env (ports.env.next_id w.ids) command (with_id ports command actor w)
          ≡ (ok l, w')
        → (create_license ports command actor w).1.ids ≡ suc w'.ids
    unfolding create_license check_new record_audit
    stored_ids u l w' h k = ground arith

    check_unused :
        (u : Unit {0}) (number : Text)
        → (check_new ports command w).0 ≡ ok u
        → create_number ports.env.to_upper_case command.license_number ≡ ok number
        → find (has_number number) w.db.licenses ≡ none
    unfolding check_new
    check_unused u number h k = ground arith

    check_known :
        (u : Unit {0})
        → Answers ports
        → (check_new ports command w).0 ≡ ok u
        → knows command.customer_id
    unfolding check_new
    check_known u answers h =
        elim (Option-cases (ports.find_customer_summary command.customer_id)) [
          | inl missing ↦ absurd (ground arith)
          | inr (s, found) ↦ answers command.customer_id s found
        ]

    grow_insert :
        (l : License) (w' : World Db)
        → IsInjective ports.env.next_id
        → IsValid ports.env.next_id w
        → IsNew ports.env (ports.env.next_id w.ids) command (with_id ports command actor w) l
        → find (has_number l.license_number) w.db.licenses ≡ none
        → knows command.customer_id
        → w'.db.licenses ≡ set l.id l w.db.licenses
        → suc w.ids ≤ w'.ids
        → Grows ports.env.next_id w w'
    grow_insert l w' inj h new unused known whole more = (
      IsTable-later _ _ _ _
          (subst
            (λ m.
              IsTable (λ (l : License). l.id) (λ l. l.license_number) IsGood ports.env.next_id
                (suc w.ids) m)
            (sym whole)
            (insert-IsTable _ _ _ _ l inj h new.named unused
              (new.well_formed, rw new.customer known)))
          more,
      subst (KeepsTerms w.db.licenses) (sym whole) (
          KeepsTerms-set l w.db.licenses l.id λ u there.
            absurd
              (cc (there, ap (λ k. get k w.db.licenses) new.named, h.fresh w.ids (omega arith)))),
    )

    built :
        (u : Unit {0}) (o : Result LicenseError License × World Db)
        → Answers ports
        → IsInjective ports.env.next_id
        → IsValid ports.env.next_id w
        → (check_new ports command w).0 ≡ ok u
        → License.create ports.env (ports.env.next_id w.ids) command (with_id ports command actor w)
          ≡ o
        → Builds ports.env (ports.env.next_id w.ids) command (with_id ports command actor w) o
        → Grows ports.env.next_id w (create_license ports command actor w).1
    built u (err f, w') answers inj h passed made (same, more) =
        grow_same ports.env.next_id w (create_license ports command actor w).1 h
          (failed ports command actor w u f w' passed made ∙ same)
          (omega (arith, failed_ids u f w' passed made))
    built u (ok l, w') answers inj h passed made (new, same, more) =
        grow_insert l (create_license ports command actor w).1 inj h new
          (check_unused u l.license_number passed new.normalized) (check_known u answers passed)
          (stored ports command actor w u l w' passed made
            ∙ ap (λ (d : Db). set l.id l d.licenses) same)
          (omega (arith, stored_ids u l w' passed made))

    create-Grows :
        Answers ports
        → IsInjective ports.env.next_id
        → IsValid ports.env.next_id w
        → Grows ports.env.next_id w (create_license ports command actor w).1
    create-Grows answers inj h = elim (Result-cases (check_new ports command w).0) [
      | inr (f, bad) ↦
          grow_same ports.env.next_id w (create_license ports command actor w).1 h
            (refused ports command actor w f bad) (omega (arith, refused_ids f bad))
      | inl (u, passed) ↦ built u _ answers inj h passed refl (
          create-Builds ports.env (ports.env.next_id w.ids) command (with_id ports command actor w))
    ]

  module _ (ports : Ports) (actor : AuditActorContext) (w : World Db) where
    abbrev Grows' : World Db → Type 0
    Grows' = Grows ports.env.next_id w

    change_ids :
        (id : Text) (next : LicenseStatus)
        → w.ids ≤ (change_license_status ports id next actor w).1.ids
    unfolding change_license_status apply_status change_status record_audit
    change_ids id next = ground arith

    change-HasTerms :
        (next : LicenseStatus) (t : ℕ) (l l' : License)
        → change_status next t l ≡ ok l'
        → HasTerms l l'
    change-HasTerms next t l l' h =
        let (same, not_expired, not_revoked, moves) = change_sound next t l l' h in
        subst (HasTerms l) (sym same) (record {
          id = refl;
          customer = refl;
          number = refl;
          capacity = refl;
          final = λ f. elim f [ inl e ↦ absurd (not_expired e) | inr r ↦ absurd (not_revoked r) ];
        })

    change-Grows :
        (id : Text) (next : LicenseStatus)
        → IsValid ports.env.next_id w
        → Grows' (change_license_status ports id next actor w).1
    change-Grows id next h = elim (Option-cases (get id w.db.licenses)) [
      | inl missing ↦
          grow_same _ w (change_license_status ports id next actor w).1 h
            (change_missing ports actor w id next missing) (change_ids id next)
      | inr (l, found) ↦ elim (Result-cases (change_status next (ports.env.clock w.ticks) l)) [
        | inr (f, k) ↦
            grow_same _ w (change_license_status ports id next actor w).1 h
              (change_refused ports actor w id next l f found k) (change_ids id next)
        | inl (l', k) ↦
            grow_update _ w l l' (change_license_status ports id next actor w).1 h
              (ap (λ j. get j w.db.licenses) (key_of_get _ _ _ l h.keyed found) ∙ found)
              (change-HasTerms next (ports.env.clock w.ticks) l l' k)
              (change-IsWellFormed next (ports.env.clock w.ticks) l l' (h.good id l found).0 k).0
              (change_stores ports actor w id next l l' found k) (change_ids id next)
      ]
    ]

    replaced_ids :
        (id : Text) (items : List ReplaceEntitlementItemInput)
        → w.ids ≤ (replace_license_entitlements ports id items actor w).1.ids
    unfolding replace_license_entitlements record_audit
    replaced_ids id items = elim (Option-cases (get id w.db.licenses)) [
      | inl missing ↦ ground arith
      | inr (l, found) ↦ ground (arith, replace_ids ports.env items l w)
    ]

    replace-Grows :
        (id : Text) (items : List ReplaceEntitlementItemInput)
        → IsValid ports.env.next_id w
        → Grows' (replace_license_entitlements ports id items actor w).1
    replace-Grows id items h = elim (Option-cases (get id w.db.licenses)) [
      | inl missing ↦
          grow_same _ w (replace_license_entitlements ports id items actor w).1 h
            (replace_missing ports actor w id items missing) (replaced_ids id items)
      | inr (l, found) ↦ elim (Result-cases (replace_entitlements ports.env items l w).0) [
        | inr (f, k) ↦
            grow_same _ w (replace_license_entitlements ports id items actor w).1 h
              (replace_refused ports actor w id items l f found k) (replaced_ids id items)
        | inl (l', k) ↦
            grow_update _ w l l' (replace_license_entitlements ports id items actor w).1 h
              (ap (λ j. get j w.db.licenses) (key_of_get _ _ _ l h.keyed found) ∙ found)
              (replace-HasTerms ports.env items l l' w k)
              (replace-IsWellFormed ports.env items l l' w (h.good id l found).0 k)
              (replace_stores ports actor w id items l l' found k) (replaced_ids id items)
      ]
    ]

  module _ (ports : Ports) (w : World Db) where
    pub serve-Grows :
        (call : Call)
        → Answers ports
        → IsInjective ports.env.next_id
        → IsValid ports.env.next_id w
        → Grows ports.env.next_id w (serve ports call w)
    unfolding serve
    serve-Grows (creates command actor) answers inj h =
        create-Grows ports command actor w answers inj h
    serve-Grows (changes_status id next actor) answers inj h = change-Grows ports actor w id next h
    serve-Grows (replaces id items actor) answers inj h = replace-Grows ports actor w id items h

  module _ (next_id : ℕ → Text) where
    abbrev pub HavePorts : List (Ports × Call) → Type 0
    HavePorts calls = All (λ (c : Ports × Call). (c.0.env.next_id ≡ next_id) × Answers c.0) calls

    served_same :
        (ports : Ports) (call : Call) (w : World Db)
        → ports.env.next_id ≡ next_id
        → Answers ports
        → IsInjective next_id
        → IsValid next_id w
        → Grows next_id w (serve ports call w)
    served_same ports call w same answers =
        subst (λ f. IsInjective f → IsValid f w → Grows f w (serve ports call w)) same
          (serve-Grows ports w call answers)

    -- After any sequence of calls the invariant holds: no two licenses have the same number, and
    -- every license is well-formed and of a known customer. And every license that was stored still is, with its customer,
    -- its number and its capacity, and with its status if that was EXPIRED or REVOKED.
    pub serve_all-Grows :
        (calls : List (Ports × Call)) (w : World Db)
        → HavePorts calls
        → IsInjective next_id
        → IsValid next_id w
        → Grows next_id w (serve_all calls w)
    unfolding serve_all
    serve_all-Grows [] w same inj h = (h, KeepsTerms-same w.db.licenses w.db.licenses refl)
    serve_all-Grows ((ports, call) ∷ calls) w ((same, answers), others) inj h =
        let (h', kept) = served_same ports call w same answers inj h in
        let (h'', later) = serve_all-Grows calls (serve ports call w) others inj h' in
        (
          h'',
          KeepsTerms-trans w.db.licenses (serve ports call w).db.licenses
              (serve_all calls (serve ports call w)).db.licenses kept later,
        )
