-- ===== src/Licensing/License.antt =====
-- license.ts, license-entitlement.ts, license-number.ts and entitlement-code.ts of
-- libs/control-plane/licensing/src/domain.
pub mod WellFormed
use pos_cloud.Common.{
  ℕ, Bool, true, false, not, ◌&&◌, ◌||◌, Option, none, some, List, [], ◌∷◌, Result, ok, err, Action,
  ◌>>=◌, ◌>>◌, pure, throw_if, lift, and_then, guard, leb, ltb, ◌==◌, all, any, length,
  if◌then◌else◌,
}
use pos_cloud.Common.Text.{Text, trim, matches_code, ◌===◌}
use pos_cloud.Kernel.{Env, World, now, fresh_id}
use pos_cloud.Licensing.Status.{
  LicenseStatus, active, LicenseEdition, basic, premium, LicenseModel, perpetual, subscription,
  LicenseError, invalid_license_number, invalid_license_edition_model, invalid_license_validity,
  invalid_max_installations, invalid_license_status_transition, invalid_entitlement_code,
  duplicate_entitlement_code, invalid_entitlement_configuration, same_status,
  is_license_status_transition_allowed,
}

-- A configuration as far as the code looks at it: whether it is an object and no array.
pub record Configuration : Type 0 where
  pub is_plain_object : Bool
  pub json : Text

pub record LicenseEntitlement : Type 0 where
  pub id : Text
  pub license_id : Text
  pub code : Text
  pub enabled : Bool
  pub configuration : Option Configuration
  pub created_at : ℕ
  pub updated_at : ℕ

pub record ReplaceEntitlementItemInput : Type 0 where
  pub code : Text
  pub enabled : Bool
  pub configuration : Option Configuration

pub record License : Type 0 where
  pub id : Text
  pub customer_id : Text
  pub license_number : Text
  pub edition : LicenseEdition
  pub license_model : LicenseModel
  pub status : LicenseStatus
  pub valid_from : ℕ
  pub valid_until : Option ℕ
  pub max_installations : ℕ
  pub created_at : ℕ
  pub updated_at : ℕ
  pub entitlements : List LicenseEntitlement

-- A number as far as the code looks at it: a natural number, or one that is negative or no integer.
pub data JsNumber : Type 0 where
  natural : ℕ → JsNumber
  other_number : JsNumber

pub record CreateLicenseInput : Type 0 where
  pub customer_id : Text
  pub license_number : Text
  pub edition : LicenseEdition
  pub license_model : LicenseModel
  pub valid_from : ℕ
  pub valid_until : Option ℕ
  pub max_installations : JsNumber
  pub entitlements : List ReplaceEntitlementItemInput

-- `LicenseNumber.create`
unfoldable pub create_number : (Text → Text) → Text → Result LicenseError Text
create_number to_upper_case raw =
    let normalized = to_upper_case (trim raw) in
    if matches_code 4 79 normalized then ok normalized else err invalid_license_number

-- `/^[a-z][a-z0-9_]{2,99}$/.test(s)`
abbrev pub is_lower : ℕ → Bool
is_lower c = leb b'a' c && leb c b'z'

abbrev pub is_entitlement_unit : ℕ → Bool
is_entitlement_unit c = is_lower c || leb b'0' c && leb c b'9' || c == b'_'

unfoldable pub matches_entitlement : Text → Bool
matches_entitlement [] = false
matches_entitlement (c ∷ s) =
    is_lower c && all is_entitlement_unit s && leb 2 (length s) && leb (length s) 99

abbrev pub validate_edition_model : LicenseEdition → LicenseModel → Result LicenseError (Unit {0})
validate_edition_model basic perpetual = ok tt
validate_edition_model premium subscription = ok tt
validate_edition_model _ _ = err invalid_license_edition_model

abbrev pub validate_validity : LicenseModel → ℕ → Option ℕ → Result LicenseError (Unit {0})
validate_validity perpetual valid_from none = ok tt
validate_validity perpetual valid_from (some until) = err invalid_license_validity
validate_validity subscription valid_from none = err invalid_license_validity
validate_validity subscription valid_from (some until) =
    if leb until valid_from then err invalid_license_validity else ok tt

abbrev pub validate_max_installations : JsNumber → Result LicenseError ℕ
validate_max_installations (natural n) = if ltb n 1 then err invalid_max_installations else ok n
validate_max_installations other_number = err invalid_max_installations

abbrev pub is_configuration_valid : Option Configuration → Bool
is_configuration_valid none = true
is_configuration_valid (some c) = c.is_plain_object

-- `at < validFrom`, `at > validUntil`
abbrev pub is_over : ℕ → Option ℕ → Bool
is_over at none = false
is_over at (some until) = ltb until at

unfoldable pub is_usable : ℕ → License → Bool
unfolding same_status
is_usable at l =
    if not (same_status l.status active)
    then false
    else if ltb at l.valid_from
    then false
    else if is_over at l.valid_until
    then false
    else true

-- `License.changeStatus`, at the reading of its clock
unfoldable pub change_status : LicenseStatus → ℕ → License → Result LicenseError License
change_status next now l =
    if is_license_status_transition_allowed l.status next
    then ok (record l { status = next; updated_at = now })
    else err (invalid_license_status_transition l.status next)

module _ (env : Env) {Db : Type 0} where
  -- the loop of `replaceEntitlements`, with the codes that it has seen
  unfoldable pub build_entitlements :
      Text
      → List Text
      → List ReplaceEntitlementItemInput
      → Action (World Db) LicenseError (List LicenseEntitlement)
  build_entitlements license_id seen [] = pure []
  build_entitlements license_id seen (item ∷ items) = do
    throw_if (not (matches_entitlement item.code)) invalid_entitlement_code
    throw_if (any (λ c. c === item.code) seen) duplicate_entitlement_code
    id ← fresh_id env
    throw_if (not (is_configuration_valid item.configuration)) invalid_entitlement_configuration
    t ← now env
    rest ← build_entitlements license_id (item.code ∷ seen) items
    pure (
        record {
          id = id;
          license_id = license_id;
          code = item.code;
          enabled = item.enabled;
          configuration = item.configuration;
          created_at = t;
          updated_at = t;
        }
        ∷ rest)

  -- `License.replaceEntitlements`
  unfoldable pub replace_entitlements :
      List ReplaceEntitlementItemInput → License → Action (World Db) LicenseError License
  replace_entitlements items l = do
    next ← build_entitlements l.id [] items
    t ← now env
    pure (record l { entitlements = next; updated_at = t })

  -- `if (input.entitlements && input.entitlements.length > 0) …`
  unfoldable pub add_entitlements :
      List ReplaceEntitlementItemInput → License → Action (World Db) LicenseError License
  add_entitlements [] l = pure l
  add_entitlements (item ∷ items) l = replace_entitlements (item ∷ items) l

  -- `License.create`, with the id that it is given
  unfoldable pub create : Text → CreateLicenseInput → Action (World Db) LicenseError License
  create id input = do
    lift (validate_edition_model input.edition input.license_model)
    lift (validate_validity input.license_model input.valid_from input.valid_until)
    max ← lift (validate_max_installations input.max_installations)
    t ← now env
    number ← lift (create_number env.to_upper_case input.license_number)
    add_entitlements input.entitlements (record {
      id = id;
      customer_id = input.customer_id;
      license_number = number;
      edition = input.edition;
      license_model = input.license_model;
      status = active;
      valid_from = input.valid_from;
      valid_until = input.valid_until;
      max_installations = max;
      created_at = t;
      updated_at = t;
      entitlements = [];
    })
