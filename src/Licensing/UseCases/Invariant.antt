-- ===== src/Licensing/UseCases/Invariant.antt =====
-- Well-formedness of the stored licenses across the use cases.
use pos_cloud.Common.{
  ℕ, ◌≡◌, refl, ◌⊎◌, inl, inr, ◌≤◌, ◌<◌, Option, none, some, List, ok, err, arith, subst, sym,
  Result-cases, Bool-cases, Option-cases,
}
use pos_cloud.Common.Text.{Text, ◌===◌}
use pos_cloud.Common.JsMap.{JsMap, get, set}
use pos_cloud.Common.JsMap.Laws.{get-set}
use pos_cloud.Kernel.{World, AuditActorContext, record_audit}
use pos_cloud.Licensing.Status.{
  LicenseStatus, LicenseEdition, basic, premium, LicenseModel, perpetual, subscription,
  LicenseError,
}
use pos_cloud.Licensing.License.{
  License, ReplaceEntitlementItemInput, replace_entitlements, JsNumber, natural, other_number,
  change_status, validate_edition_model, validate_validity, validate_max_installations,
}
use pos_cloud.Licensing.License.WellFormed.{
  replace_same_db, IsWellFormed, replace-IsWellFormed, change-IsWellFormed,
}
use pos_cloud.Licensing.UseCases.{
  Db, Ports, apply_status, change_license_status, replace_license_entitlements,
}

abbrev pub AreWellFormed : JsMap License → Type 0
AreWellFormed m = (k : Text) (l : License) → get k m ≡ some l → IsWellFormed l

pub set-AreWellFormed :
    (l : License) (m : JsMap License)
    → AreWellFormed m
    → IsWellFormed l
    → AreWellFormed (set l.id l m)
set-AreWellFormed l m old new k l' found = elim (Bool-cases (k === l.id)) [
  | inl same ↦ let e : l ≡ l' = ground (arith, get-set k l.id l m) in subst IsWellFormed e new
  | inr other ↦ old k l' (ground (arith, get-set k l.id l m))
]

pub validated :
    (edition : LicenseEdition) (model : LicenseModel) (from max : ℕ) (until : Option ℕ)
    (n : JsNumber)
    → validate_edition_model edition model ≡ ok tt
    → validate_validity model from until ≡ ok tt
    → validate_max_installations n ≡ ok max
    → (((edition ≡ basic) × (model ≡ perpetual) × (until ≡ none))
        ⊎ ((edition ≡ premium)
            × (model ≡ subscription)
            × ((t : ℕ) × (until ≡ some t) × (from < t))))
      × (1 ≤ max)
validated basic perpetual from max none (natural n) a b c = (inl (refl, refl, refl), ground arith)
validated premium subscription from max (some t) (natural n) a b c =
    (inr (refl, refl, (t, refl, ground arith)), ground arith)
validated basic perpetual from max none other_number a b c = absurd (cc c)
validated basic perpetual from max (some t) n a b c = absurd (cc b)
validated basic subscription from max until n a b c = absurd (cc a)
validated premium perpetual from max until n a b c = absurd (cc a)
validated premium subscription from max none n a b c = absurd (cc b)
validated premium subscription from max (some t) other_number a b c = absurd (cc c)

module _ (ports : Ports) (actor : AuditActorContext) (w : World Db) where
  module _ (id : Text) (next : LicenseStatus) where
    pub change_missing :
        get id w.db.licenses ≡ none → (change_license_status ports id next actor w).1.db ≡ w.db
    unfolding change_license_status
    change_missing h = ground arith

    pub change_refused :
        (l : License) (f : LicenseError)
        → get id w.db.licenses ≡ some l
        → change_status next (ports.env.clock w.ticks) l ≡ err f
        → (change_license_status ports id next actor w).1.db ≡ w.db
    unfolding change_license_status apply_status change_status
    change_refused l f h k = ground arith

    pub change_stores :
        (l l' : License)
        → get id w.db.licenses ≡ some l
        → change_status next (ports.env.clock w.ticks) l ≡ ok l'
        → (change_license_status ports id next actor w).1.db.licenses ≡ set l'.id l' w.db.licenses
    unfolding change_license_status apply_status change_status record_audit
    change_stores l l' h k = ground arith

    -- A status change leaves every stored license well-formed.
    pub change-AreWellFormed :
        AreWellFormed w.db.licenses
        → AreWellFormed (change_license_status ports id next actor w).1.db.licenses
    change-AreWellFormed h = elim (Option-cases (get id w.db.licenses)) [
      | inl m ↦ subst (λ (d : Db). AreWellFormed d.licenses) (sym (change_missing m)) h
      | inr (l, found) ↦ elim (Result-cases (change_status next (ports.env.clock w.ticks) l)) [
        | inr (f, k) ↦
            subst (λ (d : Db). AreWellFormed d.licenses) (sym (change_refused l f found k)) h
        | inl (l', k) ↦ subst AreWellFormed (sym (change_stores l l' found k)) (
            set-AreWellFormed l' w.db.licenses h
              (change-IsWellFormed next (ports.env.clock w.ticks) l l' (h id l found) k).0)
      ]
    ]

  module _ (id : Text) (items : List ReplaceEntitlementItemInput) where
    pub replace_missing :
        get id w.db.licenses ≡ none
        → (replace_license_entitlements ports id items actor w).1.db ≡ w.db
    unfolding replace_license_entitlements
    replace_missing h = ground arith

    pub replace_refused :
        (l : License) (f : LicenseError)
        → get id w.db.licenses ≡ some l
        → (replace_entitlements ports.env items l w).0 ≡ err f
        → (replace_license_entitlements ports id items actor w).1.db ≡ w.db
    unfolding replace_license_entitlements
    replace_refused l f h k = ground (arith, replace_same_db ports.env items l w)

    pub replace_stores :
        (l l' : License)
        → get id w.db.licenses ≡ some l
        → (replace_entitlements ports.env items l w).0 ≡ ok l'
        → (replace_license_entitlements ports id items actor w).1.db.licenses
          ≡ set l'.id l' w.db.licenses
    unfolding replace_license_entitlements record_audit
    replace_stores l l' h k = ground (arith, replace_same_db ports.env items l w)

    -- Replacing entitlements leaves every stored license well-formed: no license has two
    -- entitlements with the same code.
    pub replace-AreWellFormed :
        AreWellFormed w.db.licenses
        → AreWellFormed (replace_license_entitlements ports id items actor w).1.db.licenses
    replace-AreWellFormed h = elim (Option-cases (get id w.db.licenses)) [
      | inl m ↦ subst (λ (d : Db). AreWellFormed d.licenses) (sym (replace_missing m)) h
      | inr (l, found) ↦ elim (Result-cases (replace_entitlements ports.env items l w).0) [
        | inr (f, k) ↦
            subst (λ (d : Db). AreWellFormed d.licenses) (sym (replace_refused l f found k)) h
        | inl (l', k) ↦ subst AreWellFormed (sym (replace_stores l l' found k)) (
            set-AreWellFormed l' w.db.licenses h
              (replace-IsWellFormed ports.env items l l' w (h id l found) k))
      ]
    ]
