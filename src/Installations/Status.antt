-- ===== src/Installations/Status.antt =====
-- The enumerations of libs/control-plane/installations/src/domain and their tables.
use pos_cloud.Common.Text.{Text, text}
use pos_cloud.Common.{◌↔◌, ◌≡◌, refl, ◌⊎◌, inl, inr, Bool, true, false, List, [], ◌∷◌, any}

pub data InstallationStatus : Type 0 where
  pending active suspended decommissioned : InstallationStatus

pub data InstallationEnrollmentPurpose : Type 0 where
  initial recovery : InstallationEnrollmentPurpose

pub data Platform : Type 0 where
  windows android ios : Platform

pub data InstallationHealthStatus : Type 0 where
  never_seen online stale offline : InstallationHealthStatus

-- `===` of the string enumeration
unfoldable pub same_status : InstallationStatus → InstallationStatus → Bool
same_status pending pending = true
same_status active active = true
same_status suspended suspended = true
same_status decommissioned decommissioned = true
same_status _ _ = false

-- `ALLOWED_ADMIN_TRANSITIONS`
abbrev pub allowed_admin_transitions : InstallationStatus → List InstallationStatus
allowed_admin_transitions pending = decommissioned ∷ []
allowed_admin_transitions active = suspended ∷ decommissioned ∷ []
allowed_admin_transitions suspended = active ∷ decommissioned ∷ []
allowed_admin_transitions decommissioned = []

unfoldable pub is_installation_admin_transition_allowed :
    InstallationStatus → InstallationStatus → Bool
unfolding same_status
is_installation_admin_transition_allowed from to =
    any (λ s. same_status s to) (allowed_admin_transitions from)

-- `ELIGIBLE_STATUSES`
abbrev pub eligible_statuses : InstallationEnrollmentPurpose → List InstallationStatus
eligible_statuses initial = pending ∷ []
eligible_statuses recovery = active ∷ suspended ∷ []

unfoldable pub is_installation_eligible_for_enrollment :
    InstallationStatus → InstallationEnrollmentPurpose → Bool
unfolding same_status
is_installation_eligible_for_enrollment status purpose =
    any (λ s. same_status s status) (eligible_statuses purpose)

abbrev pub purpose_text : InstallationEnrollmentPurpose → Text
purpose_text initial = text "INITIAL"
purpose_text recovery = text "RECOVERY"

abbrev pub status_text : InstallationStatus → Text
status_text pending = text "PENDING"
status_text active = text "ACTIVE"
status_text suspended = text "SUSPENDED"
status_text decommissioned = text "DECOMMISSIONED"

-- `purpose === InstallationEnrollmentPurpose.INITIAL`
abbrev pub is_initial : InstallationEnrollmentPurpose → Bool
is_initial initial = true
is_initial recovery = false

pub purpose-cases : (p : InstallationEnrollmentPurpose) → (p ≡ initial) ⊎ (p ≡ recovery)
purpose-cases initial = inl refl
purpose-cases recovery = inr refl

pub same_status_iff : (s t : InstallationStatus) → (same_status s t ≡ true) ↔ (s ≡ t)
unfolding same_status
same_status_iff pending pending = (λ h. refl, λ h. refl)
same_status_iff pending active = (λ h. cc, λ h. cc)
same_status_iff pending suspended = (λ h. cc, λ h. cc)
same_status_iff pending decommissioned = (λ h. cc, λ h. cc)
same_status_iff active pending = (λ h. cc, λ h. cc)
same_status_iff active active = (λ h. refl, λ h. refl)
same_status_iff active suspended = (λ h. cc, λ h. cc)
same_status_iff active decommissioned = (λ h. cc, λ h. cc)
same_status_iff suspended pending = (λ h. cc, λ h. cc)
same_status_iff suspended active = (λ h. cc, λ h. cc)
same_status_iff suspended suspended = (λ h. refl, λ h. refl)
same_status_iff suspended decommissioned = (λ h. cc, λ h. cc)
same_status_iff decommissioned pending = (λ h. cc, λ h. cc)
same_status_iff decommissioned active = (λ h. cc, λ h. cc)
same_status_iff decommissioned suspended = (λ h. cc, λ h. cc)
same_status_iff decommissioned decommissioned = (λ h. refl, λ h. refl)
