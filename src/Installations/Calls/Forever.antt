-- ===== src/Installations/Calls/Forever.antt =====
-- Spent codes and revoked credentials after further calls.
use pos_cloud.Common.{◌≡◌, refl, Bool, true, Option, none, some, List, ok, err, arith}
use pos_cloud.Common.Text.{Text}
use pos_cloud.Common.JsMap.{get}
use pos_cloud.Common.JsMap.Laws.{key_of_get}
use pos_cloud.Common.JsMap.Slots.{IsInjective}
use pos_cloud.Kernel.{Env, World}
use pos_cloud.Installations.Errors.{enrollment_failed, installation_credential_invalid}
use pos_cloud.Installations.Credential.{InstallationCredential, is_revoked}
use pos_cloud.Installations.Token.{OpaqueToken, parse_opaque_token}
use pos_cloud.Installations.Store.{Db, Ports}
use pos_cloud.Installations.Invariant.{IsValid}
use pos_cloud.Installations.Enroll.{EnrollInstallationResult, enroll_installation}
use pos_cloud.Installations.Enroll.Outcome.{enroll-Enrolls}
use pos_cloud.Installations.Auth.{extract_bearer_token, verify_credential, can_activate}
use pos_cloud.Installations.Auth.RoundTrip.{enrolled, again}
use pos_cloud.Installations.Calls.{Call, serve_all}
use pos_cloud.Installations.Calls.Reach.{HasIds, serve_all-IsValid}

module _ (ports : Ports) (calls : List (Ports × Call)) (code first_id later_id : Text)
    (r : EnrollInstallationResult) (w w' : World Db) where
  -- A code works once for ever: after it has enrolled an installation and after any calls that
  -- follow, a call with the same code fails with `enrollment_failed`, stores and trail unchanged.
  pub spent_for_ever :
      HasIds ports.env.next_id calls
      → IsInjective ports.env.next_id
      → IsValid ports.env.next_id w.ids w.db
      → enroll_installation ports code first_id w ≡ (ok r, w')
      → ((enroll_installation ports code later_id (serve_all calls w')).0 ≡ err enrollment_failed)
        × ((enroll_installation ports code later_id (serve_all calls w')).1.db
            ≡ (serve_all calls w').db)
        × ((enroll_installation ports code later_id (serve_all calls w')).1.trail
            ≡ (serve_all calls w').trail)
  spent_for_ever ids inj h call =
      let (parsed, i, e, p, checked, same, q, kept, whole) =
        enrolled ports code first_id w w' r inj h call in
      let (valid, later) = serve_all-IsValid ports.env.next_id calls w' ids inj q.valid in
      again ports code first_id w (serve_all calls w') r parsed e q.at p
        (key_of_get (λ j. j.id) parsed.id w.db.enrollments e h.enrollments.keyed
          checked.found_enrollment)
        (later.closed e.id _ q.consumed refl)
        (enroll_installation ports code later_id (serve_all calls w'))
        (enroll-Enrolls ports code later_id (serve_all calls w') inj valid)

module _ (env : Env) (is_uuid : Text → Bool) (calls : List (Ports × Call)) (w : World Db)
    (c : InstallationCredential) (header : Option Text) (token : Text) (parsed : OpaqueToken) where
  unverified :
      (db : Db)
      → get parsed.id db.credentials ≡ some c
      → is_revoked c ≡ true
      → verify_credential env is_uuid parsed.id parsed.secret db ≡ none
  unfolding verify_credential
  unverified db found gone = ground arith

  refused :
      (u : World Db)
      → extract_bearer_token header ≡ some token
      → parse_opaque_token token ≡ some parsed
      → verify_credential env is_uuid parsed.id parsed.secret u.db ≡ none
      → can_activate env is_uuid true header u ≡ (err installation_credential_invalid, u)
  unfolding can_activate
  refused u a b n = ground arith

  -- A token of a credential that was revoked is refused by every guarded route after any calls
  -- that follow.
  pub revoked_for_ever :
      HasIds env.next_id calls
      → IsInjective env.next_id
      → IsValid env.next_id w.ids w.db
      → extract_bearer_token header ≡ some token
      → parse_opaque_token token ≡ some parsed
      → get parsed.id w.db.credentials ≡ some c
      → is_revoked c ≡ true
      → can_activate env is_uuid true header (serve_all calls w)
        ≡ (err installation_credential_invalid, serve_all calls w)
  revoked_for_ever ids inj h a b found gone =
      let (valid, kept) = serve_all-IsValid env.next_id calls w ids inj h in
      refused (serve_all calls w) a b
        (unverified (serve_all calls w).db (kept.revoked parsed.id c found gone) gone)
