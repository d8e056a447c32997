-- ===== src/Licensing/UseCases/Returned.antt =====
-- A license that a use case returns is stored.
use pos_cloud.Common.{
  ◌≡◌, ◌∙◌, ap, inl, inr, some, List, Result, ok, arith, Option-cases, Result-cases,
}
use pos_cloud.Common.Text.{Text}
use pos_cloud.Common.JsMap.{get}
use pos_cloud.Common.JsMap.Laws.{get-set_self}
use pos_cloud.Kernel.{World, AuditActorContext, record_audit}
use pos_cloud.Licensing.Status.{LicenseStatus, LicenseError}
use pos_cloud.Licensing.License
use pos_cloud.Licensing.License.{
  License, CreateLicenseInput, ReplaceEntitlementItemInput, change_status, replace_entitlements,
}
use pos_cloud.Licensing.UseCases.{
  Db, Ports, check_new, create_license, apply_status, change_license_status,
  replace_license_entitlements,
}
use pos_cloud.Licensing.UseCases.Invariant.{change_stores, replace_stores}
use pos_cloud.Licensing.UseCases.Create.{with_id, stored}

abbrev pub IsReturned : Result LicenseError License × World Db → Type 0
IsReturned o = (l : License) → o.0 ≡ ok l → get l.id o.1.db.licenses ≡ some l

module _ (ports : Ports) (actor : AuditActorContext) (w : World Db) where
  create_returns :
      (command : CreateLicenseInput) (l : License)
      → (create_license ports command actor w).0 ≡ ok l
      → (w' : World Db) × ((check_new ports command w).0 ≡ ok tt)
        × (License.create ports.env
              (ports.env.next_id w.ids)
              command
              (with_id ports command actor w)
            ≡ (ok l, w'))
  unfolding create_license check_new record_audit
  create_returns command l h =
      let o =
        License.create ports.env (ports.env.next_id w.ids) command
          (with_id ports command actor w) in
      elim (Result-cases (check_new ports command w).0) [
        | inr (f, refused) ↦ absurd (ground arith)
        | inl (u, passed) ↦ elim (Result-cases o.0) [
          | inr (f, failed) ↦ absurd (ground arith)
          | inl (made, built) ↦
              let same : made ≡ l = ground arith in
              (o.1, passed, ap (λ (r : Result LicenseError License). (r, o.1)) (built ∙ ap ok same))
        ]
      ]

  change_returns :
      (id : Text) (next : LicenseStatus) (l : License)
      → (change_license_status ports id next actor w).0 ≡ ok l
      → (old : License) × (get id w.db.licenses ≡ some old)
        × (change_status next (ports.env.clock w.ticks) old ≡ ok l)
  unfolding change_license_status apply_status change_status record_audit
  change_returns id next l h = elim (Option-cases (get id w.db.licenses)) [
    | inl missing ↦ absurd (ground arith)
    | inr (old, found) ↦ (old, found, ground arith)
  ]

  replace_returns :
      (id : Text) (items : List ReplaceEntitlementItemInput) (l : License)
      → (replace_license_entitlements ports id items actor w).0 ≡ ok l
      → (old : License) × (get id w.db.licenses ≡ some old)
        × ((replace_entitlements ports.env items old w).0 ≡ ok l)
  unfolding replace_license_entitlements record_audit
  replace_returns id items l h = elim (Option-cases (get id w.db.licenses)) [
    | inl missing ↦ absurd (ground arith)
    | inr (old, found) ↦ (old, found, ground arith)
  ]

  pub create-IsReturned :
      (command : CreateLicenseInput) → IsReturned (create_license ports command actor w)
  create-IsReturned command l h =
      let (w', passed, built) = create_returns command l h in
      ap (get l.id) (stored ports command actor w tt l w' passed built)
      ∙ get-set_self l.id l w'.db.licenses

  pub change-IsReturned :
      (id : Text) (next : LicenseStatus) → IsReturned (change_license_status ports id next actor w)
  change-IsReturned id next l h =
      let (old, found, changed) = change_returns id next l h in
      ap (get l.id) (change_stores ports actor w id next old l found changed)
      ∙ get-set_self l.id l w.db.licenses

  pub replace-IsReturned :
      (id : Text) (items : List ReplaceEntitlementItemInput)
      → IsReturned (replace_license_entitlements ports id items actor w)
  replace-IsReturned id items l h =
      let (old, found, replaced) = replace_returns id items l h in
      ap (get l.id) (replace_stores ports actor w id items old l found replaced)
      ∙ get-set_self l.id l w.db.licenses
