-- ===== src/CustomerManagement/Status.antt =====
-- customer-status.ts and customer.errors.ts of libs/control-plane/customer-management/src/domain.
use pos_cloud.Common.{◌↔◌, refl, ◌≡◌, Bool, true, false, List, [], ◌∷◌, any}
use pos_cloud.Common.Text.{Text, text}
use pos_cloud.Kernel.{ErrorKind, not_found, conflict, validation}

pub data CustomerStatus : Type 0 where
  active suspended inactive : CustomerStatus

-- One constructor for each error class.
pub data CustomerError : Type 0 where
  invalid_customer_code invalid_customer_legal_name invalid_customer_trade_name : CustomerError
  invalid_customer_status_transition : CustomerStatus → CustomerStatus → CustomerError
  customer_not_found customer_code_already_exists : CustomerError

-- The base class of each error class.
abbrev pub error_kind : CustomerError → ErrorKind
error_kind invalid_customer_code = validation
error_kind invalid_customer_legal_name = validation
error_kind invalid_customer_trade_name = validation
error_kind (invalid_customer_status_transition _ _) = validation
error_kind customer_not_found = not_found
error_kind customer_code_already_exists = conflict

abbrev pub status_text : CustomerStatus → Text
status_text active = text "ACTIVE"
status_text suspended = text "SUSPENDED"
status_text inactive = text "INACTIVE"

-- `===` of the string enumeration
unfoldable pub same_status : CustomerStatus → CustomerStatus → Bool
same_status active active = true
same_status suspended suspended = true
same_status inactive inactive = true
same_status _ _ = false

-- `ALLOWED_TRANSITIONS`
abbrev pub allowed_transitions : CustomerStatus → List CustomerStatus
allowed_transitions active = suspended ∷ inactive ∷ []
allowed_transitions suspended = active ∷ inactive ∷ []
allowed_transitions inactive = []

unfoldable pub is_customer_status_transition_allowed : CustomerStatus → CustomerStatus → Bool
unfolding same_status
is_customer_status_transition_allowed from to =
    any (λ s. same_status s to) (allowed_transitions from)

pub same_status_iff : (s t : CustomerStatus) → (same_status s t ≡ true) ↔ (s ≡ t)
unfolding same_status
same_status_iff active active = (λ h. refl, λ h. refl)
same_status_iff active suspended = (λ h. cc, λ h. cc)
same_status_iff active inactive = (λ h. cc, λ h. cc)
same_status_iff suspended active = (λ h. cc, λ h. cc)
same_status_iff suspended suspended = (λ h. refl, λ h. refl)
same_status_iff suspended inactive = (λ h. cc, λ h. cc)
same_status_iff inactive active = (λ h. cc, λ h. cc)
same_status_iff inactive suspended = (λ h. cc, λ h. cc)
same_status_iff inactive inactive = (λ h. refl, λ h. refl)
