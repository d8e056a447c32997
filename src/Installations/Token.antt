-- ===== src/Installations/Token.antt =====
-- libs/control-plane/installations/src/application/opaque-token-format.ts
pub mod Laws
use pos_cloud.Common.{◌+◌, ◌∷◌, ◌++◌, ◌||◌, Option, none, some, ◌==◌, if◌then◌else◌}
use pos_cloud.Common.{length, take, drop}
use pos_cloud.Common.Text.{Text, index_of}

pub record OpaqueToken : Type 0 where
  pub id : Text
  pub secret : Text

unfoldable pub format_opaque_token : Text → Text → Text
format_opaque_token id secret = id ++ b'.' ∷ secret

unfoldable pub parse_opaque_token : Text → Option OpaqueToken
parse_opaque_token raw = elim (index_of b'.' raw) [
  | none ↦ none
  | some separator ↦
      if separator == 0 || separator + 1 == length raw
      then none
      else some (record { id = take separator raw; secret = drop (separator + 1) raw })
]
