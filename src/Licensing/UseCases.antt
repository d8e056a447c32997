-- ===== src/Licensing/UseCases.antt =====
-- The use cases of libs/control-plane/licensing/src/application/use-cases over the repository that
-- src/test-support keeps in memory.
pub mod Invariant
pub mod Returned
pub mod Create
pub mod Terms
pub mod Calls
use pos_cloud.Common.{
  ℕ, suc, Bool, true, false, not, Option, none, some, List, [], ◌∷◌, ok, err, Action, ◌>>=◌, ◌>>◌,
  pure, or_throw, throw_if, lift, is_some, length,
}
use pos_cloud.Common.Text.{Text, text, ◌===◌}
use pos_cloud.Common.JsMap.{JsMap, get, set, find, get_all}
use pos_cloud.Kernel.{
  Env, World, AuditActorContext, AuditEventInput, MetadataValue, string_value, number_value, now,
  fresh_id, record_audit,
}
use pos_cloud.Installations.Store.{CustomerSummary, LicenseSummary}
use pos_cloud.Licensing.Status.{
  LicenseStatus, status_text, LicenseError, license_customer_not_found,
  customer_not_eligible_for_license, license_number_already_exists, license_not_found,
  invalid_license_status_transition, is_license_status_transition_allowed,
}
use pos_cloud.Licensing.License
use pos_cloud.Licensing.License.{
  License, CreateLicenseInput, ReplaceEntitlementItemInput, create_number, change_status,
  replace_entitlements, is_usable,
}

pub record Db : Type 0 where
  pub licenses : JsMap License

pub record Ports : Type 0 where
  pub env : Env
  pub find_customer_summary : Text → Option CustomerSummary

abbrev pub M : Type 0 → Type 0
M A = Action (World Db) LicenseError A

-- InMemoryLicenseRepository

abbrev pub find_license : Text → M (Option License)
find_license id w = (ok (get id w.db.licenses), w)

abbrev pub find_by_ids : List Text → M (List License)
find_by_ids ids w = (ok (get_all ids w.db.licenses), w)

abbrev pub has_number : Text → License → Bool
has_number number l = l.license_number === number

abbrev pub find_by_license_number : Text → M (Option License)
find_by_license_number number w = (ok (find (has_number number) w.db.licenses), w)

-- `save` and `replaceEntitlements`
abbrev pub save_license : License → M (Unit {0})
save_license l w = (ok tt, record w { db = record (w.db) { licenses = set l.id l w.db.licenses } })

unfoldable pub get_licenses_by_ids : List Text → M (List License)
get_licenses_by_ids [] = pure []
get_licenses_by_ids (id ∷ ids) = find_by_ids (id ∷ ids)

abbrev pub license_event :
    AuditActorContext → Text → Text → List (Text × MetadataValue) → AuditEventInput
license_event actor action id metadata = record {
  actor = actor;
  action = action;
  resource_type = text "License";
  resource_id = id;
  metadata = metadata;
}

module _ (ports : Ports) where
  open ports use {env, find_customer_summary}

  unfoldable pub check_new : CreateLicenseInput → M (Unit {0})
  check_new command = do
    customer ← or_throw (find_customer_summary command.customer_id) license_customer_not_found
    throw_if (not customer.active) customer_not_eligible_for_license
    number ← lift (create_number env.to_upper_case command.license_number)
    existing ← find_by_license_number number
    throw_if (is_some existing) license_number_already_exists

  unfoldable pub create_license : CreateLicenseInput → AuditActorContext → M License
  create_license command actor = do
    check_new command
    id ← fresh_id env
    l ← License.create env id command
    save_license l
    record_audit env (license_event actor (text "license.created") l.id [])
    pure l

  -- `license.changeStatus(next, clock)`, which reads the clock if the transition is allowed
  unfoldable pub apply_status : LicenseStatus → License → M License
  apply_status next l = do
    throw_if (not (is_license_status_transition_allowed l.status next))
        (invalid_license_status_transition l.status next)
    t ← now env
    lift (change_status next t l)

  unfoldable pub change_license_status : Text → LicenseStatus → AuditActorContext → M License
  change_license_status id next actor = do
    l ← or_throw (← find_license id) license_not_found
    l' ← apply_status next l
    save_license l'
    record_audit env (
        license_event actor (text "license.status.changed") l'.id (
          (text "from", string_value (status_text l.status))
          ∷ (text "to", string_value (status_text l'.status))
          ∷ []))
    pure l'

  unfoldable pub replace_license_entitlements :
      Text → List ReplaceEntitlementItemInput → AuditActorContext → M License
  replace_license_entitlements id items actor = do
    l ← or_throw (← find_license id) license_not_found
    l' ← replace_entitlements env items l
    save_license l'
    record_audit env (
        license_event actor (text "license.entitlements.replaced") l'.id
          ((text "entitlementCount", number_value (length items)) ∷ []))
    pure l'

  unfoldable pub get_license_summary : Text → M (Option LicenseSummary)
  get_license_summary id = do
    found ← find_license id
    elim found [
      | none ↦ pure none
      | some l ↦ (do
        t ← now env
        pure (
            some (record {
              id = l.id;
              customer_id = l.customer_id;
              max_installations = l.max_installations;
              usable = is_usable t l;
            })))
    ]
