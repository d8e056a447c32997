-- ===== src/AccessManagement/Guards/Outcome.antt =====
-- Who reaches a handler.
use pos_cloud.Common.{
  ◌≡◌, refl, ◌≢◌, ◌⊎◌, inl, inr, Bool, true, false, ◌||◌, Option, none, some, ◌∷◌, [], List, arith,
  Bool-cases, Option-cases, ok, err, ◌↔◌, all,
}
use pos_cloud.Common.Text.{Text}
use pos_cloud.Common.JsMap.{JsMap, get}
use pos_cloud.AccessManagement.AdminUser.{AdminUser, suspended}
use pos_cloud.AccessManagement.Permission.{has, Grants, resolve_effective_permissions}
use pos_cloud.AccessManagement.Guards.{
  Route, CurrentAdminPrincipal, forbidden, extract_bearer_token, no_permissions, required_codes,
  access_token_guard, check_permissions, admin_authorization_guard, admin_guards,
}

-- A route that is no administrator's: public or of the machines.
abbrev pub is_open_route : Route → Bool
is_open_route route =
    route.is_public || route.is_installation_enrollment || route.is_installation_authenticated

module _ (verify : Text → Option CurrentAdminPrincipal) (resolve : Text → Option (List Text))
    (route : Route) (header : Option Text) where
  -- The token of the header is an administrator's, and the route asks for no more than a login or
  -- for permissions, at least one, all of which the administrator has.
  pub record IsAuthorized (admin : CurrentAdminPrincipal) : Type 0 where
    pub token : Text
    pub extracted : extract_bearer_token header ≡ some token
    pub verified : verify token ≡ some admin
    pub allowed :
        (route.is_authenticated_only ≡ true)
        ⊎ ((codes : List Text) × (no_permissions route.required_permissions ≡ false)
            × (resolve admin.admin_user_id ≡ some codes)
            × (all (has codes) (required_codes route.required_permissions) ≡ true))

  authorized_passes :
      (admin : CurrentAdminPrincipal)
      → is_open_route route ≡ false
      → IsAuthorized admin
      → admin_guards verify resolve route header ≡ ok (some admin)
  unfolding admin_guards access_token_guard admin_authorization_guard check_permissions
  authorized_passes admin closed h = ground arith

  passed_only :
      (admin : CurrentAdminPrincipal) (token : Text)
      → admin_guards verify resolve route header ≡ ok (some admin)
      → extract_bearer_token header ≡ some token
      → (is_open_route route ≡ false)
        × (verify token ≡ some admin)
        × ((route.is_authenticated_only ≡ true)
            ⊎ ((no_permissions route.required_permissions ≡ false)
                × (check_permissions resolve
                      (required_codes route.required_permissions)
                      (some admin)
                    ≡ ok tt)))
  unfolding admin_guards access_token_guard admin_authorization_guard
  passed_only admin token h e = ground arith

  codes_checked :
      (admin : CurrentAdminPrincipal) (codes required : List Text)
      → resolve admin.admin_user_id ≡ some codes
      → check_permissions resolve required (some admin) ≡ ok tt
      → all (has codes) required ≡ true
  unfolding check_permissions
  codes_checked admin codes required r h = ground arith

  unresolved :
      (admin : CurrentAdminPrincipal) (required : List Text)
      → resolve admin.admin_user_id ≡ none
      → check_permissions resolve required (some admin) ≢ ok tt
  unfolding check_permissions
  unresolved admin required r h = ground arith

  no_token :
      (admin : CurrentAdminPrincipal)
      → admin_guards verify resolve route header ≡ ok (some admin)
      → extract_bearer_token header ≢ none
  unfolding admin_guards access_token_guard
  no_token admin h e = ground arith

  passed-IsAuthorized :
      (admin : CurrentAdminPrincipal)
      → admin_guards verify resolve route header ≡ ok (some admin)
      → (is_open_route route ≡ false) × IsAuthorized admin
  passed-IsAuthorized admin h = elim (Option-cases (extract_bearer_token header)) [
    | inl e ↦ absurd (no_token admin h e)
    | inr (token, e) ↦
        let (closed, v, rest) = passed_only admin token h e in
        elim rest [
          | inl only ↦
              (closed, record { token = token; extracted = e; verified = v; allowed = inl only })
          | inr (some_codes, checked) ↦ elim (Option-cases (resolve admin.admin_user_id)) [
            | inl n ↦
                absurd (unresolved admin (required_codes route.required_permissions) n checked)
            | inr (codes, r) ↦ (
              closed,
              record {
                token = token;
                extracted = e;
                verified = v;
                allowed = inr (
                  codes,
                  some_codes,
                  r,
                  codes_checked admin codes (required_codes route.required_permissions) r checked,
                );
              },
            )
          ]
        ]
  ]

  open_iff : (admin_guards verify resolve route header ≡ ok none) ↔ (is_open_route route ≡ true)
  unfolding admin_guards access_token_guard admin_authorization_guard
  open_iff = (λ h. ground arith, λ h. ground arith)

  -- A request reaches a handler without an administrator exactly if its route is public or one of
  -- the machines; it reaches a handler as an administrator exactly if the route is none of these, the
  -- header carries a token of that administrator, and the route either asks for a login alone or
  -- names at least one permission and the administrator has all that it names. A route without
  -- any mark is thus closed to everyone.
  pub admin_guards_iff :
      ((admin_guards verify resolve route header ≡ ok none) ↔ (is_open_route route ≡ true))
      × ((admin : CurrentAdminPrincipal)
          → (admin_guards verify resolve route header ≡ ok (some admin))
            ↔ ((is_open_route route ≡ false) × IsAuthorized admin))
  admin_guards_iff = (
    open_iff,
    λ admin. (passed-IsAuthorized admin, λ (closed, h). authorized_passes admin closed h),
  )

module _ (grants : Grants) (users : JsMap AdminUser) (verify : Text → Option CurrentAdminPrincipal)
    (route : Route) (header : Option Text) (admin : CurrentAdminPrincipal) (u : AdminUser)
    (token : Text) where
  suspended_resolves :
      get admin.admin_user_id users ≡ some u
      → u.status ≡ suspended
      → resolve_effective_permissions grants users admin.admin_user_id ≡ some []
  unfolding resolve_effective_permissions
  suspended_resolves found status = rw (found, status) refl

  all_nothing :
      (required : Option (List Text))
      → no_permissions required ≡ false
      → all (has []) (required_codes required) ≡ false
  all_nothing none h = cc
  all_nothing (some []) h = cc
  all_nothing (some (c ∷ codes)) h = refl

  -- A suspended administrator with a valid token is refused as forbidden by every route that is
  -- neither open nor content with a login, whatever permissions were granted.
  pub suspended_forbidden :
      is_open_route route ≡ false
      → route.is_authenticated_only ≡ false
      → extract_bearer_token header ≡ some token
      → verify token ≡ some admin
      → get admin.admin_user_id users ≡ some u
      → u.status ≡ suspended
      → admin_guards verify (resolve_effective_permissions grants users) route header
        ≡ err forbidden
  unfolding admin_guards access_token_guard admin_authorization_guard check_permissions
  suspended_forbidden closed more e v found status =
      let r = suspended_resolves found status in
      elim (Bool-cases (no_permissions route.required_permissions)) [
        | inl n ↦ ground arith
        | inr n ↦ ground (arith, all_nothing route.required_permissions n)
      ]
