-- ===== src/AccessManagement/Guards.antt =====
-- presentation/http/guards/access-token.guard.ts and admin-authorization.guard.ts, in the order in
-- which they run. What the decorators attach to a handler is a record, and the header and the two
-- ports are arguments.
pub mod Outcome
use pos_cloud.Common.{
  Bool, true, false, not, ◌||◌, Option, none, some, List, [], ◌∷◌, Result, ok, err, and_then, all,
  any, if◌then◌else◌,
}
use pos_cloud.Common.Text.{Text, text, ◌===◌}
use pos_cloud.Installations.Auth.{split_spaces, bearer_part}
use pos_cloud.AccessManagement.Permission.{has}

pub record Route : Type 0 where
  pub is_public : Bool
  pub is_authenticated_only : Bool
  pub is_installation_enrollment : Bool
  pub is_installation_authenticated : Bool
  pub required_permissions : Option (List Text)

pub record CurrentAdminPrincipal : Type 0 where
  pub admin_user_id : Text
  pub session_id : Text

-- `unexpected` is an error that is none of the program's own classes.
pub data GuardError : Type 0 where
  invalid_access_token forbidden unexpected : GuardError

unfoldable pub extract_bearer_token : Option Text → Option Text
extract_bearer_token none = none
extract_bearer_token (some header) =
    let (scheme, others) = split_spaces header in
    if scheme === text "Bearer" then bearer_part others else none

abbrev pub or_refuse : {A : Type 0} → GuardError → Option A → Result GuardError A
or_refuse e none = err e
or_refuse e (some a) = ok a

abbrev pub no_permissions : Option (List Text) → Bool
no_permissions none = true
no_permissions (some []) = true
no_permissions (some (c ∷ codes)) = false

abbrev pub required_codes : Option (List Text) → List Text
required_codes none = []
required_codes (some codes) = codes

module _ (verify : Text → Option CurrentAdminPrincipal) where
  -- the result is what `request.currentAdmin` is set to
  unfoldable pub access_token_guard :
      Route → Option Text → Result GuardError (Option CurrentAdminPrincipal)
  access_token_guard route header =
      if route.is_public || route.is_installation_enrollment || route.is_installation_authenticated
      then ok none
      else and_then (or_refuse invalid_access_token (extract_bearer_token header)) λ token.
        and_then (or_refuse invalid_access_token (verify token)) λ verified. ok (some verified)

module _ (resolve : Text → Option (List Text)) where
  unfoldable pub check_permissions :
      List Text → Option CurrentAdminPrincipal → Result GuardError (Unit {0})
  check_permissions required current_admin =
      and_then (or_refuse invalid_access_token current_admin) λ admin.
        and_then (or_refuse unexpected (resolve admin.admin_user_id))
          λ effective. if all (has effective) required then ok tt else err forbidden

  unfoldable pub admin_authorization_guard :
      Route → Option CurrentAdminPrincipal → Result GuardError (Unit {0})
  admin_authorization_guard route current_admin =
      if route.is_public
      then ok tt
      else if route.is_authenticated_only
      then ok tt
      else if route.is_installation_enrollment
      then ok tt
      else if route.is_installation_authenticated
      then ok tt
      else if no_permissions route.required_permissions
      then err forbidden
      else check_permissions (required_codes route.required_permissions) current_admin

-- both guards on a request
unfoldable pub admin_guards :
    (Text → Option CurrentAdminPrincipal)
    → (Text → Option (List Text))
    → Route
    → Option Text
    → Result GuardError (Option CurrentAdminPrincipal)
admin_guards verify resolve route header =
    and_then (access_token_guard verify route header) λ current_admin.
      and_then (admin_authorization_guard resolve route current_admin) λ _. ok current_admin
