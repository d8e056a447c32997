-- ===== src/AccessManagement/Permission.antt =====
-- libs/control-plane/access-management/src/domain/permission.ts and admin-role.ts, and the resolver
-- of infrastructure/persistence/typeorm-permission-resolver.adapter.ts over the tables that it joins.
use pos_cloud.Common.{Bool, Option, none, some, List, [], ◌∷◌, ◌++◌, any, all, if◌then◌else◌}
use pos_cloud.Common.Text.{Text, text, ◌===◌}
use pos_cloud.Common.JsMap.{JsMap, get}
use pos_cloud.AccessManagement.AdminUser.{AdminUser, is_active}

abbrev pub has : List Text → Text → Bool
has codes code = any (λ c. c === code) codes

abbrev pub viewer_permissions : List Text
viewer_permissions = text "customers.read" ∷ text "licenses.read" ∷ text "installations.read" ∷ []

abbrev pub operator_permissions : List Text
operator_permissions =
    text "customers.read"
    ∷ text "customers.create"
    ∷ text "customers.status.change"
    ∷ text "licenses.read"
    ∷ text "licenses.create"
    ∷ text "licenses.status.change"
    ∷ text "installations.read"
    ∷ text "installations.create"
    ∷ text "installations.status.change"
    ∷ text "installations.enrollment.manage"
    ∷ text "audit.read"
    ∷ []

abbrev pub admin_permissions : List Text
admin_permissions =
    text "customers.read"
    ∷ text "customers.create"
    ∷ text "customers.status.change"
    ∷ text "licenses.read"
    ∷ text "licenses.create"
    ∷ text "licenses.status.change"
    ∷ text "licenses.entitlements.manage"
    ∷ text "installations.read"
    ∷ text "installations.create"
    ∷ text "installations.status.change"
    ∷ text "installations.enrollment.manage"
    ∷ text "installations.credentials.manage"
    ∷ text "audit.read"
    ∷ []

pub data AdminRoleCode : Type 0 where
  platform_viewer platform_operator platform_admin : AdminRoleCode

-- `ROLE_PERMISSIONS`
abbrev pub role_permissions : AdminRoleCode → List Text
role_permissions platform_viewer = viewer_permissions
role_permissions platform_operator = operator_permissions
role_permissions platform_admin = admin_permissions

-- `ALL_PERMISSION_CODES`, which lists the groups of `PERMISSIONS` one after the other
abbrev pub all_permission_codes : List Text
all_permission_codes =
    (text "customers.read" ∷ text "customers.create" ∷ text "customers.status.change" ∷ [])
    ++ (text "licenses.read"
        ∷ text "licenses.create"
        ∷ text "licenses.status.change"
        ∷ text "licenses.entitlements.manage"
        ∷ [])
    ++ (text "installations.read"
        ∷ text "installations.create"
        ∷ text "installations.status.change"
        ∷ text "installations.enrollment.manage"
        ∷ text "installations.credentials.manage"
        ∷ [])
    ++ (text "audit.read" ∷ [])

-- Rows of `admin_user_roles` (the user, the role) and of `role_permissions` (the role, the code).
pub record Grants : Type 0 where
  pub admin_user_roles : List (Text × Text)
  pub role_permissions : List (Text × Text)

unfoldable pub codes_of_role : Text → List (Text × Text) → List Text
codes_of_role role [] = []
codes_of_role role ((r, code) ∷ rows) =
    let rest = codes_of_role role rows in if r === role then code ∷ rest else rest

unfoldable pub codes_of_user : Text → List (Text × Text) → List (Text × Text) → List Text
codes_of_user id [] granted = []
codes_of_user id ((u, role) ∷ rows) granted =
    let rest = codes_of_user id rows granted in
    if u === id then codes_of_role role granted ++ rest else rest

-- the join, for an account in the state that the row of `admin_users` has
abbrev pub joined_codes : Grants → Text → Option AdminUser → List Text
joined_codes grants id none = []
joined_codes grants id (some u) =
    if is_active u.status
    then codes_of_user id grants.admin_user_roles grants.role_permissions
    else []

-- An unknown code among the rows throws, which is `none`. The set is a list.
unfoldable pub resolve_effective_permissions : Grants → JsMap AdminUser → Text → Option (List Text)
resolve_effective_permissions grants users id =
    let codes = joined_codes grants id (get id users) in
    if all (has all_permission_codes) codes then some codes else none
