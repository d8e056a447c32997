-- ===== src/Installations/Tests/Calls.antt =====
-- The theorems on sequences of calls of the installations context at concrete stores.
use native.Mathlib.Omega.{arith}
use pos_cloud.Common.{List, ◌≡◌, refl, true, none, some, ◌∷◌, [], subst, err}
use pos_cloud.Common.Text.{Text, text, ◌===◌, index_of}
use pos_cloud.Common.JsMap.{get, count}
use pos_cloud.Kernel.{World}
use pos_cloud.Installations.Status.{suspended}
use pos_cloud.Installations.Credential.{InstallationCredential}
use pos_cloud.Installations.Store.{Db, Ports}
use pos_cloud.Installations.Errors.{enrollment_failed}
use pos_cloud.Installations.Token.{parse_opaque_token}
use pos_cloud.Installations.Enroll.{enroll_installation}
use pos_cloud.Installations.Auth.{split_spaces, extract_bearer_token, can_activate}
use pos_cloud.Installations.Calls.{Call, beats, issues, revokes, serve_all}
use pos_cloud.Installations.Calls.Reach.{serve_all-IsValid}
use pos_cloud.Installations.Calls.Forever.{spent_for_ever, revoked_for_ever}
use pos_cloud.Installations.History.{Keeps}
use pos_cloud.Installations.Credential.{InstallationCredential}
use pos_cloud.Installations.Errors.{installation_credential_invalid}
use pos_cloud.Installations.Invariant.{HasLeftPending}
use pos_cloud.Installations.Status.{suspended, recovery}
use pos_cloud.Installations.Invariant.{IsValid, IsStamped}
use pos_cloud.Installations.Tests.{
  test_id, test_id-IsInjective, test_env, test_ports, test_installation, test_db, test_world,
  test_actor, get_only, test_db-IsValid, test_code, enrolled, enrolled_world, enrolls,
}

-- a heartbeat, a new code and a revocation
abbrev test_calls : List (Ports × Call)
test_calls =
    (test_ports, beats (text "I") (text "1") none)
    ∷ (test_ports, issues (record { installation_id = text "I"; purpose = recovery }) test_actor)
    ∷ (test_ports, revokes (text "I") test_actor)
    ∷ []

serve_all-IsValid_example :
    IsValid test_id (serve_all test_calls test_world).ids (serve_all test_calls test_world).db
    × Keeps test_db (serve_all test_calls test_world).db
serve_all-IsValid_example =
    serve_all-IsValid test_id test_calls test_world (refl, (refl, (refl, tt))) test_id-IsInjective
      test_db-IsValid

spent_for_ever_example :
    ((enroll_installation test_ports test_code (text "q") (serve_all test_calls enrolled_world)).0
      ≡ err enrollment_failed)
    × ((enroll_installation test_ports test_code
          (text "q")
          (serve_all test_calls enrolled_world)).1.db
        ≡ (serve_all test_calls enrolled_world).db)
    × ((enroll_installation test_ports test_code
          (text "q")
          (serve_all test_calls enrolled_world)).1.trail
        ≡ (serve_all test_calls enrolled_world).trail)
spent_for_ever_example =
    spent_for_ever test_ports test_calls test_code (text "r") (text "q") enrolled test_world
      enrolled_world (refl, (refl, (refl, tt))) test_id-IsInjective test_db-IsValid enrolls

abbrev revoked_credential : InstallationCredential
revoked_credential = record {
  id = text "K";
  installation_id = text "I";
  secret_hash = text "s";
  created_at = 7;
  revoked_at = some 8;
}

abbrev revoked_db : Db
revoked_db = record {
  installations =
      (text "I", record test_installation { status = suspended; registered_at = some 6 }) ∷ [];
  enrollments = [];
  credentials = (text "K", revoked_credential) ∷ [];
  health = [];
}

abbrev revoked_world : World Db
revoked_world = record test_world { db = revoked_db }

get_only_credential :
    (k j : Text) (v c : InstallationCredential) → get k ((j, v) ∷ []) ≡ some c → v ≡ c
unfolding get
get_only_credential k j v c h = ground arith

revoked_db-IsValid : IsValid test_id 0 revoked_db
unfolding get count ◌===◌
revoked_db-IsValid = record {
  installations_keyed = (refl, refl, tt);
  installations_fresh = λ n h. refl;
  unique_codes = λ code. ground arith;
  stamped = λ k i found.
      subst IsStamped
        (get_only k (text "I")
          (record test_installation { status = suspended; registered_at = some 6 }) i found)
        (λ p. cc p, λ q e. cc e);
  enrollments = record { keyed = tt; single = λ x. omega arith; fresh = λ n h. refl };
  credentials = record {
    keyed = (refl, refl, tt);
    single = λ x. ground arith;
    fresh = λ n h. refl;
  };
  credentialed = λ k c found.
      subst
        (λ (x : InstallationCredential).
          HasLeftPending (get x.installation_id revoked_db.installations))
        (get_only_credential k (text "K") revoked_credential c found) (λ e. cc e);
}

revoked_for_ever_example :
    can_activate test_env
      (λ id. true)
      true
      (some (text "Bearer K.s"))
      (serve_all test_calls revoked_world)
    ≡ (err installation_credential_invalid, serve_all test_calls revoked_world)
unfolding get ◌===◌ index_of parse_opaque_token split_spaces extract_bearer_token
revoked_for_ever_example =
    revoked_for_ever test_env (λ id. true) test_calls revoked_world revoked_credential
      (some (text "Bearer K.s")) (text "K.s") (record { id = text "K"; secret = text "s" })
      (refl, (refl, (refl, tt))) test_id-IsInjective revoked_db-IsValid refl refl refl refl
