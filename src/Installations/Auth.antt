-- ===== src/Installations/Auth.antt =====
-- presentation/http/guards/installation-auth.guard.ts, over the query of
-- infrastructure/persistence/typeorm-installation-credential-verifier.adapter.ts.
pub mod Outcome
pub mod RoundTrip
use pos_cloud.Common.{
  Bool, true, false, not, ◌&&◌, ◌||◌, Option, none, some, List, [], ◌∷◌, ok, err, Action, ◌>>=◌,
  ◌>>◌, pure, throw, or_throw, ◌==◌, if◌then◌else◌,
}
use pos_cloud.Common.Text.{Text, text, ◌===◌}
use pos_cloud.Common.JsMap.{get}
use pos_cloud.Kernel.{Env, World}
use pos_cloud.Installations.Status.{InstallationStatus, pending, active, suspended, decommissioned}
use pos_cloud.Installations.Errors.{
  InstallationError, installation_credential_invalid, installation_suspended,
  installation_decommissioned,
}
use pos_cloud.Installations.Installation.{Installation}
use pos_cloud.Installations.Credential.{InstallationCredential, is_revoked}
use pos_cloud.Installations.Secrets.{secret_matches_hash}
use pos_cloud.Installations.Token.{OpaqueToken, parse_opaque_token}
use pos_cloud.Installations.Store.{Db, M}

-- `s.split(" ")`, as its first part and the others
unfoldable pub split_spaces : Text → Text × List Text
split_spaces [] = ([], [])
split_spaces (c ∷ s) =
    let (first, others) = split_spaces s in
    if c == b' ' then ([], first ∷ others) else (c ∷ first, others)

-- the second of the parts, if it is there and not empty
abbrev pub bearer_part : List Text → Option Text
bearer_part [] = none
bearer_part ([] ∷ others) = none
bearer_part ((c ∷ token) ∷ others) = some (c ∷ token)

unfoldable pub extract_bearer_token : Option Text → Option Text
extract_bearer_token none = none
extract_bearer_token (some header) =
    let (scheme, others) = split_spaces header in
    if scheme === text "Bearer" then bearer_part others else none

pub record InstallationCredentialVerificationResult : Type 0 where
  pub installation_id : Text
  pub installation_status : InstallationStatus

-- Which status the guard lets in.
unfoldable pub admit : InstallationCredentialVerificationResult → M (Option Text)
admit verified = elim verified.installation_status [
  | suspended ↦ throw installation_suspended
  | decommissioned ↦ throw installation_decommissioned
  | active ↦ pure (some verified.installation_id)
  | pending ↦ throw installation_credential_invalid
]

module _ (env : Env) (is_uuid : Text → Bool) where
  -- the row that the query joins
  abbrev pub verify_row :
      Text
      → InstallationCredential
      → Option Installation
      → Option InstallationCredentialVerificationResult
  verify_row secret c none = none
  verify_row secret c (some i) =
      if is_revoked c
      then none
      else if not (secret_matches_hash env secret c.secret_hash)
      then none
      else some (record { installation_id = i.id; installation_status = i.status })

  unfoldable pub verify_credential :
      Text → Text → Db → Option InstallationCredentialVerificationResult
  verify_credential credential_id secret db =
      if not (is_uuid credential_id) then none else elim (get credential_id db.credentials) [
        | none ↦ none
        | some c ↦ verify_row secret c (get c.installation_id db.installations)
      ]

  -- `canActivate`, with whether the route is marked and the header of the request; the result is
  -- what `request.currentInstallation` is set to, and `none` where the guard leaves it.
  unfoldable pub can_activate : Bool → Option Text → M (Option Text)
  can_activate false header = pure none
  can_activate true header = do
    token ← or_throw (extract_bearer_token header) installation_credential_invalid
    parsed ← or_throw (parse_opaque_token token) installation_credential_invalid
    verified ← λ w.
        or_throw (verify_credential parsed.id parsed.secret w.db) installation_credential_invalid w
    admit verified
