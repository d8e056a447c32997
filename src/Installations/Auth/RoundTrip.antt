-- ===== src/Installations/Auth/RoundTrip.antt =====
-- What an installation can do with the codes and the tokens that it was given.
use pos_cloud.Common.{
  ℕ, ◌≡◌, refl, ◌≢◌, ◌⊎◌, inl, inr, Bool, true, Option, none, some, ◌∷◌, [], ◌++◌, arith, ap, subst,
  sym, ◌∙◌, Result, ok, err,
}
use pos_cloud.Common.Text.{Text, text, ◌===◌, index_of}
use pos_cloud.Common.JsMap.{get}
use pos_cloud.Common.JsMap.Laws.{key_of_get}
use pos_cloud.Common.JsMap.Slots.{IsInjective}
use pos_cloud.Kernel.{Env, World}
use pos_cloud.Installations.Status.{active, suspended, is_installation_eligible_for_enrollment}
use pos_cloud.Installations.Errors.{InstallationError, enrollment_failed}
use pos_cloud.Installations.Installation.{Installation}
use pos_cloud.Installations.Enrollment.{InstallationEnrollment, is_consumable}
use pos_cloud.Installations.Secrets.{secret_matches_hash_self}
use pos_cloud.Installations.Token.{OpaqueToken, parse_opaque_token, format_opaque_token}
use pos_cloud.Installations.Token.Laws.{IsTokenId, parse-format}
use pos_cloud.Installations.Store.{Db, Ports}
use pos_cloud.Installations.Enroll.{EnrollInstallationResult, enroll_installation}
use pos_cloud.Installations.Enroll.Steps.{Valid}
use pos_cloud.Installations.Enroll.Correct.{IsEnrolled}
use pos_cloud.Installations.Enroll.Outcome.{Enrolls, enroll-Enrolls}
use pos_cloud.Installations.Auth.{split_spaces, extract_bearer_token, can_activate}
use pos_cloud.Installations.Auth.Outcome.{IsAuthenticated, admitted, can_activate_complete}

-- Ids and secrets as `randomUUID` and base64url give them: an id has the form of a UUID and
-- neither a dot nor a space, a secret is not empty and has no space.
pub record IsGenerated (env : Env) (is_uuid : Text → Bool) : Type 0 where
  pub ids : (n : ℕ) → IsTokenId (env.next_id n)
  pub uuids : (n : ℕ) → is_uuid (env.next_id n) ≡ true
  pub plain_ids : (n : ℕ) → index_of b' ' (env.next_id n) ≡ none
  pub secrets : (n : ℕ) → env.next_secret n ≢ []
  pub plain_secrets : (n : ℕ) → index_of b' ' (env.next_secret n) ≡ none

split_spaces_plain : (s : Text) → index_of b' ' s ≡ none → split_spaces s ≡ (s, [])
unfolding split_spaces index_of
split_spaces_plain [] h = refl
split_spaces_plain (c ∷ s) h = ground (arith, split_spaces_plain s)

index_of_plain :
    (c : ℕ) (s t : Text) → index_of c s ≡ none → index_of c t ≡ none → index_of c (s ++ t) ≡ none
unfolding index_of
index_of_plain c [] t h k = k
index_of_plain c (d ∷ s) t h k = ground (arith, index_of_plain c s t)

plain_token :
    (id secret : Text)
    → index_of b' ' id ≡ none
    → index_of b' ' secret ≡ none
    → index_of b' ' (format_opaque_token id secret) ≡ none
unfolding format_opaque_token index_of
plain_token id secret h k = index_of_plain b' ' id (b'.' ∷ secret) h (ground arith)

abbrev pub bearer : Text → Option Text
bearer token = some (text "Bearer " ++ token)

split_bearer :
    (t : Text)
    → split_spaces (text "Bearer " ++ t) ≡ (text "Bearer", (split_spaces t).0 ∷ (split_spaces t).1)
unfolding split_spaces
split_bearer t = refl

extract_bearer :
    (token : Text)
    → token ≢ []
    → index_of b' ' token ≡ none
    → extract_bearer_token (bearer token) ≡ some token
unfolding extract_bearer_token ◌===◌
extract_bearer [] h plain = absurd (h refl)
extract_bearer (c ∷ token) h plain =
    rw (split_bearer (c ∷ token), split_spaces_plain (c ∷ token) plain) refl

format_not_empty : (id secret : Text) → format_opaque_token id secret ≢ []
unfolding format_opaque_token
format_not_empty [] secret e = cc
format_not_empty (c ∷ id) secret e = cc

module _ (ports : Ports) (code correlation_id : Text) (w w' : World Db)
    (r : EnrollInstallationResult) where
  pub enrolled :
      IsInjective ports.env.next_id
      → Valid ports w
      → enroll_installation ports code correlation_id w ≡ (ok r, w')
      → Enrolls ports code w (ok r, w')
  enrolled inj h call =
      subst (Enrolls ports code w) call (enroll-Enrolls ports code correlation_id w inj h)

  -- The token that an enrollment returned, presented as a bearer token, is the credential of the
  -- installation that was enrolled.
  enrolled-IsAuthenticated :
      (is_uuid : Text → Bool) (i : Installation) (e : InstallationEnrollment) (token : Text)
      → IsGenerated ports.env is_uuid
      → (q : IsEnrolled ports i e w' token)
      → IsAuthenticated ports.env is_uuid (bearer token) w'.db q.i'
  enrolled-IsAuthenticated is_uuid i e token g q =
      let (m, drawn) = q.drawn_id in
      let (n, drawn_secret) = q.drawn_secret in
      let plain =
        plain_token q.credential.id q.secret (rw drawn (g.plain_ids m))
          (rw drawn_secret (g.plain_secrets n)) in
      record {
        token = format_opaque_token q.credential.id q.secret;
        extracted = rw q.printed (
            extract_bearer (format_opaque_token q.credential.id q.secret)
              (format_not_empty q.credential.id q.secret) plain);
        parsed = record { id = q.credential.id; secret = q.secret };
        parses =
            parse-format q.credential.id q.secret (subst IsTokenId (sym drawn) (g.ids m))
              (rw drawn_secret (g.secrets n));
        uuid = rw drawn (g.uuids m);
        credential = q.credential;
        found_credential = q.stored;
        alive = q.alive;
        matches = rw q.hashed (secret_matches_hash_self ports.env q.secret);
        found_installation = rw q.owner q.installation;
      }

  left_status :
      (i : Installation) (e : InstallationEnrollment) (token : Text)
      → (q : IsEnrolled ports i e w' token)
      → is_installation_eligible_for_enrollment i.status e.purpose ≡ true
      → (q.i'.status ≡ active) ⊎ (q.i'.status ≡ suspended)
  unfolding is_installation_eligible_for_enrollment
  left_status i e token q eligible = elim q.activation [
    | inl (p, same) ↦ inl (ap (λ j. j.status) same)
    | inr (p, same) ↦ rw same (ground arith)
  ]

  -- The credential that an enrollment has returned is let in by the guard right after it, as that
  -- installation, if the installation is active; if it is suspended, which only a recovery leaves
  -- it, the guard says so. Ids and secrets are as the generators document them.
  pub enroll-authenticates :
      (is_uuid : Text → Bool)
      → IsInjective ports.env.next_id
      → IsGenerated ports.env is_uuid
      → Valid ports w
      → enroll_installation ports code correlation_id w ≡ (ok r, w')
      → (i' : Installation) × (get r.installation_id w'.db.installations ≡ some i')
        × ((i'.status ≡ active) ⊎ (i'.status ≡ suspended))
        × (can_activate ports.env is_uuid true (bearer r.credential) w'
            ≡ (admitted ports.env is_uuid i', w'))
  enroll-authenticates is_uuid inj g h call =
      let (parsed, i, e, p, checked, same, q, kept, whole) = enrolled inj h call in
      let id_same : i.id ≡ r.installation_id =
        key_of_get (λ j. j.id) r.installation_id w.db.installations i h.installations_keyed
          checked.found_installation in
      (
        q.i',
        ap (λ y. get y w'.db.installations) (sym id_same) ∙ q.installation,
        left_status i e r.credential q checked.eligible,
        can_activate_complete ports.env is_uuid (bearer r.credential) w' q.i'
            (enrolled-IsAuthenticated is_uuid i e r.credential g q),
      )

  spent :
      (e : InstallationEnrollment) (at t : ℕ)
      → is_consumable (record e { consumed_at = some at }) t ≡ true
      → ⊥
  unfolding is_consumable
  spent e at t h = cc

  pub again :
      (parsed : OpaqueToken) (e : InstallationEnrollment) (at : ℕ)
      → parse_opaque_token code ≡ some parsed
      → e.id ≡ parsed.id
      → get e.id w'.db.enrollments ≡ some (record e { consumed_at = some at })
      → (o : Result InstallationError EnrollInstallationResult × World Db) → Enrolls ports code w' o
      → (o.0 ≡ err enrollment_failed) × (o.1.db ≡ w'.db) × (o.1.trail ≡ w'.trail)
  again parsed e at p same stored (ok r2, w2)
        (parsed2, i2, e2, p2, checked, owner, q, kept, whole) =
      let same_parsed : parsed ≡ parsed2 = cc (p, p2) in
      let row : record e { consumed_at = some at } ≡ e2 =
        cc (stored, checked.found_enrollment, same, ap (λ y. y.id) same_parsed) in
      absurd (
        spent e at _ (
          subst (λ y. is_consumable y (ports.env.clock w'.ticks) ≡ true) (sym row)
            checked.consumable))
  again parsed e at p same stored (err f, w2) (failed, same_db, same_trail, same_ids) =
      (ap err failed, same_db, same_trail)
