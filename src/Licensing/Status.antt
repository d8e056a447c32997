-- ===== src/Licensing/Status.antt =====
-- The enumerations and the error classes of libs/control-plane/licensing/src/domain.
use pos_cloud.Common.{◌↔◌, refl, ◌≡◌, Bool, true, false, List, [], ◌∷◌, any}
use pos_cloud.Common.Text.{Text, text}
use pos_cloud.Kernel.{ErrorKind, not_found, conflict, validation}

pub data LicenseStatus : Type 0 where
  active suspended expired revoked : LicenseStatus

pub data LicenseEdition : Type 0 where
  basic premium : LicenseEdition

pub data LicenseModel : Type 0 where
  perpetual subscription : LicenseModel

pub data LicenseError : Type 0 where
  invalid_license_number invalid_license_edition_model invalid_license_validity : LicenseError
  invalid_max_installations license_not_found license_number_already_exists : LicenseError
  invalid_license_status_transition : LicenseStatus → LicenseStatus → LicenseError
  invalid_entitlement_code duplicate_entitlement_code : LicenseError
  invalid_entitlement_configuration license_customer_not_found : LicenseError
  customer_not_eligible_for_license : LicenseError

-- The base class of each error class.
abbrev pub error_kind : LicenseError → ErrorKind
error_kind invalid_license_number = validation
error_kind invalid_license_edition_model = validation
error_kind invalid_license_validity = validation
error_kind invalid_max_installations = validation
error_kind license_not_found = not_found
error_kind license_number_already_exists = conflict
error_kind (invalid_license_status_transition _ _) = validation
error_kind invalid_entitlement_code = validation
error_kind duplicate_entitlement_code = validation
error_kind invalid_entitlement_configuration = validation
error_kind license_customer_not_found = not_found
error_kind customer_not_eligible_for_license = conflict

abbrev pub status_text : LicenseStatus → Text
status_text active = text "ACTIVE"
status_text suspended = text "SUSPENDED"
status_text expired = text "EXPIRED"
status_text revoked = text "REVOKED"

abbrev pub edition_text : LicenseEdition → Text
edition_text basic = text "BASIC"
edition_text premium = text "PREMIUM"

-- `===` of the string enumeration
unfoldable pub same_status : LicenseStatus → LicenseStatus → Bool
same_status active active = true
same_status suspended suspended = true
same_status expired expired = true
same_status revoked revoked = true
same_status _ _ = false

-- `ALLOWED_TRANSITIONS`
abbrev pub allowed_transitions : LicenseStatus → List LicenseStatus
allowed_transitions active = suspended ∷ expired ∷ revoked ∷ []
allowed_transitions suspended = active ∷ expired ∷ revoked ∷ []
allowed_transitions expired = []
allowed_transitions revoked = []

unfoldable pub is_license_status_transition_allowed : LicenseStatus → LicenseStatus → Bool
unfolding same_status
is_license_status_transition_allowed from to =
    any (λ s. same_status s to) (allowed_transitions from)

pub same_status_iff : (s t : LicenseStatus) → (same_status s t ≡ true) ↔ (s ≡ t)
unfolding same_status
same_status_iff active active = (λ h. refl, λ h. refl)
same_status_iff active suspended = (λ h. cc, λ h. cc)
same_status_iff active expired = (λ h. cc, λ h. cc)
same_status_iff active revoked = (λ h. cc, λ h. cc)
same_status_iff suspended active = (λ h. cc, λ h. cc)
same_status_iff suspended suspended = (λ h. refl, λ h. refl)
same_status_iff suspended expired = (λ h. cc, λ h. cc)
same_status_iff suspended revoked = (λ h. cc, λ h. cc)
same_status_iff expired active = (λ h. cc, λ h. cc)
same_status_iff expired suspended = (λ h. cc, λ h. cc)
same_status_iff expired expired = (λ h. refl, λ h. refl)
same_status_iff expired revoked = (λ h. cc, λ h. cc)
same_status_iff revoked active = (λ h. cc, λ h. cc)
same_status_iff revoked suspended = (λ h. cc, λ h. cc)
same_status_iff revoked expired = (λ h. cc, λ h. cc)
same_status_iff revoked revoked = (λ h. refl, λ h. refl)
