-- ===== src/AccessManagement/Email.antt =====
-- libs/control-plane/access-management/src/domain/email.ts and password.ts
use pos_cloud.Common.{
  ℕ, suc, Bool, false, not, ◌&&◌, ◌||◌, none, some, [], ◌∷◌, Result, ok, err, length, take, drop,
  all, ltb, ◌==◌, if◌then◌else◌,
}
use pos_cloud.Common.Text.{Text, trim, is_space, index_of}
use pos_cloud.AccessManagement.Errors.{AdminError, invalid_admin_email, invalid_admin_password}

-- `[^\s@]`
abbrev pub is_email_unit : ℕ → Bool
is_email_unit c = not (is_space c) && not (c == b'@')

-- `\.[^\s@]+$` after at least one of the units before
unfoldable pub has_inner_dot : Text → Bool
has_inner_dot [] = false
has_inner_dot (c ∷ []) = false
has_inner_dot (c ∷ d ∷ s) = c == b'.' || has_inner_dot (d ∷ s)

-- `[^\s@]+\.[^\s@]+$`
unfoldable pub is_domain : Text → Bool
is_domain [] = false
is_domain (c ∷ s) = all is_email_unit (c ∷ s) && has_inner_dot s

-- `EMAIL_PATTERN.test(s)`: neither side of the `@` may hold another one.
unfoldable pub matches_email : Text → Bool
matches_email s = elim (index_of b'@' s) [
  | none ↦ false
  | some i ↦ not (i == 0) && all is_email_unit (take i s) && is_domain (drop (suc i) s)
]

-- `Email.create`
unfoldable pub create : (Text → Text) → Text → Result AdminError Text
create to_lower_case raw =
    let normalized = to_lower_case (trim raw) in
    if ltb (length normalized) 3 || ltb 254 (length normalized) || not (matches_email normalized)
    then err invalid_admin_email
    else ok normalized

-- `Password.create`, which keeps the text as it is
unfoldable pub create_password : Text → Result AdminError Text
create_password raw =
    if ltb (length raw) 12
    then err invalid_admin_password
    else if ltb 256 (length raw)
    then err invalid_admin_password
    else ok raw
