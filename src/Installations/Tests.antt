-- ===== src/Installations/Tests.antt =====
-- The theorems of the installations context at concrete stores.
mod Health
mod Calls
use native.Mathlib.Omega.{arith}
use pos_cloud.Common.{
  List, ℕ, zero, suc, ◌+◌, ◌≤◌, ◌≡◌, refl, ◌≢◌, ◌⊎◌, inl, inr, true, none, some, ◌∷◌, [], ap, subst,
  ok, err, ◌↔◌, length,
}
use pos_cloud.Common.Text.{Text, text, ◌===◌, index_of}
use pos_cloud.Common.JsMap.{get, set, find, count}
use pos_cloud.Common.JsMap.Slots.{IsInjective}
use pos_cloud.Kernel.{contains, Env, World, AuditActorContext, system}
use pos_cloud.Installations.Status.{pending, active, suspended, initial, windows}
use pos_cloud.Installations.Installation.{Installation}
use pos_cloud.Installations.Enrollment.{InstallationEnrollment}
use pos_cloud.Installations.Credential.{InstallationCredential}
use pos_cloud.Installations.Store.{Db, Ports, HealthRow}
use pos_cloud.Kernel.{record_audit}
use pos_cloud.Installations.Status.{
  decommissioned, online, is_installation_eligible_for_enrollment, same_status,
}
use pos_cloud.Installations.Installation
use pos_cloud.Installations.Credential
use pos_cloud.Installations.Enrollment.{is_consumable, mark_consumed}
use pos_cloud.Installations.Errors.{enrollment_failed}
use pos_cloud.Installations.Secrets.{secret_matches_hash}
use pos_cloud.Installations.Token.{parse_opaque_token, format_opaque_token}
use pos_cloud.Installations.Token.Laws.{IsTokenId, parse_iff}
use pos_cloud.Installations.Issue.{
  IssueInstallationEnrollmentCommand, issue_installation_enrollment,
}
use pos_cloud.Installations.Issue.Invariant.{Issues, issue-Issues}
use pos_cloud.Installations.Enroll.{
  EnrollInstallationResult, check_enrollment, consume, activate_if_initial, revoke_credential,
  revoke_active_credential, issue_credential, consume_enrollment, enroll_locked,
  enroll_installation,
}
use pos_cloud.Installations.Enroll.Outcome.{Enrolls, enroll-Enrolls}
use pos_cloud.Installations.Auth.{split_spaces, extract_bearer_token, can_activate}
use pos_cloud.Installations.Calls.{Call, beats, issues, revokes, serve_all}
use pos_cloud.Installations.Calls.Reach.{serve_all-IsValid}
use pos_cloud.Installations.Calls.Forever.{spent_for_ever, revoked_for_ever}
use pos_cloud.Installations.History.{Keeps}
use pos_cloud.Installations.Credential.{InstallationCredential}
use pos_cloud.Installations.Errors.{installation_credential_invalid}
use pos_cloud.Installations.Invariant.{HasLeftPending}
use pos_cloud.Installations.Status.{suspended, recovery}
use pos_cloud.Installations.Auth.Outcome.{IsAuthenticated, admitted, can_activate_iff}
use pos_cloud.Installations.Auth.RoundTrip.{IsGenerated, bearer, enroll-authenticates}
use pos_cloud.Installations.Create.{CreateInstallationCommand, create_installation}
use pos_cloud.Installations.Create.Outcome.{Creates, create-Creates}
use pos_cloud.Installations.Admin.{change_installation_status, revoke_installation_credential}
use pos_cloud.Installations.Admin.Outcome.{Changes, change_status-Changes, Revokes, revoke-Revokes}
use pos_cloud.Installations.Health.{
  InstallationHealthThresholds, compute_installation_health, RecordHeartbeatInput, updated_row,
  upsert_heartbeat, record_installation_heartbeat, get_installation_health,
  InstallationHealthDetail,
}
use pos_cloud.Installations.Health.Laws.{
  severity, health_worsens, heartbeats_commute, heartbeat_then_health,
}
use pos_cloud.Installations.Invariant.{IsValid, IsStamped}
use pos_cloud.Installations.Listing.{ListInstallationsQuery}
use pos_cloud.Installations.Listing.Whole.{Lists}
use pos_cloud.Pagination.{finite, not_finite, pos}

abbrev letters : ℕ → Text
letters zero = []
letters (suc n) = b'a' ∷ letters n

-- ids and secrets of growing length
abbrev test_id : ℕ → Text
test_id n = b'a' ∷ letters n

length-letters : (n : ℕ) → length (letters n) ≡ n
length-letters zero = refl
length-letters (suc n) = ap suc (length-letters n)

test_id-IsInjective : IsInjective test_id
test_id-IsInjective m n e = omega (arith, length-letters m, length-letters n, ap length e)

letters-index_of : (c n : ℕ) → c ≢ b'a' → index_of c (letters n) ≡ none
unfolding index_of
letters-index_of c zero h = refl
letters-index_of c (suc n) h = ground (arith, letters-index_of c n)

abbrev test_env : Env
test_env = record {
  clock = λ n. 1000 + n;
  next_id = test_id;
  next_secret = test_id;
  sha256_hex = λ s. s;
  hex_bytes = λ s. s;
  to_upper_case = λ s. s;
  to_lower_case = λ s. s;
  audit_accepts = λ e. true;
  ilike = contains;
}

abbrev test_ports : Ports
test_ports = record {
  env = test_env;
  find_customer_summary = λ id. some (record { id = id; active = true });
  find_license_summary =
      λ id. some (record { id = id; customer_id = text "C"; max_installations = 2; usable = true });
  enrollment_code_ttl_seconds = 60;
}

abbrev test_installation : Installation
test_installation = record {
  id = text "I";
  customer_id = text "C";
  license_id = text "L";
  installation_code = text "POS-1";
  name = text "Till";
  platform = windows;
  status = pending;
  registered_at = none;
  created_at = 5;
  updated_at = 5;
}

abbrev test_enrollment : InstallationEnrollment
test_enrollment = record {
  id = text "E";
  installation_id = text "I";
  purpose = initial;
  code_hash = text "s";
  created_at = 6;
  expires_at = 9000;
  consumed_at = none;
  revoked_at = none;
}

-- one pending installation with one open code
abbrev test_db : Db
test_db = record {
  installations = (text "I", test_installation) ∷ [];
  enrollments = (text "E", test_enrollment) ∷ [];
  credentials = [];
  health = [];
}

abbrev test_world : World Db
test_world = record { db = test_db; ticks = 0; ids = 0; secrets = 0; trail = [] }

abbrev test_actor : AuditActorContext
test_actor = record { actor_type = system; actor_id = none; correlation_id = text "r" }

get_only : (k j : Text) (v i : Installation) → get k ((j, v) ∷ []) ≡ some i → v ≡ i
unfolding get
get_only k j v i h = ground arith

test_db-IsValid : IsValid test_id 0 test_db
unfolding get count ◌===◌
test_db-IsValid = record {
  installations_keyed = (refl, refl, tt);
  installations_fresh = λ n h. refl;
  unique_codes = λ code. ground arith;
  stamped = λ k i found.
      subst IsStamped (get_only k (text "I") test_installation i found)
        (λ p. refl, λ q. elim q [ inl e ↦ cc e | inr e ↦ cc e ]);
  enrollments = record {
    keyed = (refl, refl, tt);
    single = λ x. ground arith;
    fresh = λ n h. refl;
  };
  credentials = record { keyed = tt; single = λ x. omega arith; fresh = λ n h. refl };
  credentialed = λ k c found. cc;
}

abbrev test_command : IssueInstallationEnrollmentCommand
test_command = record { installation_id = text "I"; purpose = initial }

-- Issuing a second code replaces the open one.
issue-Issues_example :
    Issues test_ports test_id-IsInjective test_command test_world
      (issue_installation_enrollment test_ports test_command test_actor test_world)
issue-Issues_example =
    issue-Issues test_ports test_id-IsInjective test_command test_actor test_world test_db-IsValid

abbrev test_code : Text
test_code = text "E.s"

enroll-Enrolls_example :
    Enrolls test_ports test_code test_world
      (enroll_installation test_ports test_code (text "r") test_world)
enroll-Enrolls_example =
    enroll-Enrolls test_ports test_code (text "r") test_world test_id-IsInjective test_db-IsValid

abbrev enrolled : EnrollInstallationResult
enrolled = record { installation_id = text "I"; credential = text "a.a" }

abbrev enrolled_world : World Db
enrolled_world = (enroll_installation test_ports test_code (text "r") test_world).1

enrolls :
    enroll_installation test_ports test_code (text "r") test_world ≡ (ok enrolled, enrolled_world)
unfolding get set find count ◌===◌ index_of parse_opaque_token format_opaque_token
    enroll_installation enroll_locked check_enrollment consume_enrollment consume
    activate_if_initial revoke_active_credential revoke_credential issue_credential record_audit
    secret_matches_hash is_consumable is_installation_eligible_for_enrollment same_status
    Installation.activate mark_consumed Credential.issue
enrolls = refl

test_env-IsGenerated : IsGenerated test_env (λ id. true)
unfolding index_of
test_env-IsGenerated = record {
  ids = λ n. (λ e. cc e, letters-index_of b'.' (suc n) (λ e. cc e));
  uuids = λ n. refl;
  plain_ids = λ n. letters-index_of b' ' (suc n) (λ e. cc e);
  secrets = λ n e. cc e;
  plain_secrets = λ n. letters-index_of b' ' (suc n) (λ e. cc e);
}

enroll-authenticates_example :
    (i' : Installation) × (get (text "I") enrolled_world.db.installations ≡ some i')
    × ((i'.status ≡ active) ⊎ (i'.status ≡ suspended))
    × (can_activate test_env (λ id. true) true (bearer (text "a.a")) enrolled_world
        ≡ (admitted test_env (λ id. true) i', enrolled_world))
enroll-authenticates_example =
    enroll-authenticates test_ports test_code (text "r") test_world enrolled_world enrolled
      (λ id. true) test_id-IsInjective test_env-IsGenerated test_db-IsValid enrolls

can_activate_iff_example :
    (can_activate test_env (λ id. true) true (some (text "Bearer a.a")) enrolled_world
      ≡ (ok (some (text "I")), enrolled_world))
    ↔ ((i : Installation) × IsAuthenticated test_env
          (λ id. true)
          (some (text "Bearer a.a"))
          enrolled_world.db
          i
        × (i.status ≡ active)
        × (i.id ≡ text "I"))
can_activate_iff_example =
    can_activate_iff test_env (λ id. true) (some (text "Bearer a.a")) enrolled_world (text "I")

abbrev test_creation : CreateInstallationCommand
test_creation = record {
  customer_id = text "C";
  license_id = text "L";
  installation_code = text "POS-2";
  name = text "Second till";
  platform = windows;
}

create-Creates_example :
    Creates test_ports test_creation test_world
      (create_installation test_ports test_creation test_actor test_world)
create-Creates_example =
    create-Creates test_ports test_creation test_world test_actor test_id-IsInjective
      test_db-IsValid

change_status-Changes_example :
    Changes test_ports
      (text "I")
      decommissioned
      test_actor
      test_world
      (change_installation_status test_ports (text "I") decommissioned test_actor test_world)
change_status-Changes_example =
    change_status-Changes test_ports (text "I") decommissioned test_actor test_world test_db-IsValid

revoke-Revokes_example :
    Revokes test_ports
      (text "I")
      test_actor
      test_world
      (revoke_installation_credential test_ports (text "I") test_actor test_world)
revoke-Revokes_example = revoke-Revokes test_ports (text "I") test_actor test_world test_db-IsValid

parse_iff_example :
    (parse_opaque_token (text "E.s") ≡ some (record { id = text "E"; secret = text "s" })) ↔ (
      (text "E.s" ≡ format_opaque_token (text "E") (text "s"))
      × IsTokenId (text "E")
      × (text "s" ≢ []))
parse_iff_example = parse_iff (text "E.s") (record { id = text "E"; secret = text "s" })
