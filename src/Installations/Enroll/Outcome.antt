-- ===== src/Installations/Enroll/Outcome.antt =====
-- Enrolling an installation with a code: what the use case has done, by how it ended.
use pos_cloud.Common.{
  suc, ◌≡◌, refl, inl, inr, none, some, arith, ap, subst, sym, ◌∙◌, Option-cases, Result, ok, err,
  Result-cases,
}
use pos_cloud.Common.Text.{Text}
use pos_cloud.Common.JsMap.{set, get}
use pos_cloud.Common.JsMap.Laws.{key_of_get}
use pos_cloud.Common.JsMap.Slots.{IsInjective}
use pos_cloud.Kernel.{World, record_audit}
use pos_cloud.Installations.Errors.{InstallationError, enrollment_failed}
use pos_cloud.Installations.Installation.{Installation}
use pos_cloud.Installations.Enrollment.{InstallationEnrollment}
use pos_cloud.Installations.Token.{OpaqueToken, parse_opaque_token}
use pos_cloud.Installations.Store.{Db, Ports}
use pos_cloud.Installations.History.{Keeps}
use pos_cloud.Installations.Invariant.{IsValid-later}
use pos_cloud.Installations.Enroll.{
  EnrollInstallationResult, EnrollmentOutcome, consumed_event, check_enrollment, consume_enrollment,
  enroll_locked, enroll_installation,
}
use pos_cloud.Installations.Enroll.Checks.{IsChecked, check_sound, check_refuses, check_complete}
use pos_cloud.Installations.Enroll.Steps.{Valid}
use pos_cloud.Installations.Enroll.Correct.{IsEnrolled, consume_enrollment-IsEnrolled}

module _ (ports : Ports) where
  -- What a call has done, by how it ended.
  abbrev pub Enrolls :
      Text → World Db → Result InstallationError EnrollInstallationResult × World Db → Type 0
  Enrolls code w (ok r, w') =
      (parsed : OpaqueToken) × (i : Installation) × (e : InstallationEnrollment)
      × (parse_opaque_token code ≡ some parsed)
      × IsChecked ports parsed r.installation_id w i e
      × (e.installation_id ≡ r.installation_id)
      × (q : IsEnrolled ports i e w' r.credential) × Keeps w.db w'.db
      × (w'.db.installations ≡ set i.id q.i' w.db.installations)
  Enrolls code w (err f, w') =
      (f ≡ enrollment_failed) × (w'.db ≡ w.db) × (w'.trail ≡ w.trail) × (w'.ids ≡ w.ids)

  module _ (code correlation_id : Text) (w : World Db) where
    enroll_malformed :
        parse_opaque_token code ≡ none
        → enroll_installation ports code correlation_id w ≡ (err enrollment_failed, w)
    unfolding enroll_installation
    enroll_malformed h = ground arith

    enroll_unknown :
        (parsed : OpaqueToken)
        → parse_opaque_token code ≡ some parsed
        → get parsed.id w.db.enrollments ≡ none
        → enroll_installation ports code correlation_id w ≡ (err enrollment_failed, w)
    unfolding enroll_installation
    enroll_unknown parsed p h = ground arith

    enroll_refused :
        (parsed : OpaqueToken) (d : InstallationEnrollment) (f : InstallationError)
        → parse_opaque_token code ≡ some parsed
        → get parsed.id w.db.enrollments ≡ some d
        → (check_enrollment ports parsed d.installation_id w).0 ≡ err f
        → enroll_installation ports code correlation_id w
          ≡ (err f, record ((check_enrollment ports parsed d.installation_id w).1) { db = w.db })
    unfolding enroll_installation enroll_locked
    enroll_refused parsed d f p found refused = ground arith

    enroll_accepted :
        (parsed : OpaqueToken) (i : Installation) (d e : InstallationEnrollment)
        (o : EnrollmentOutcome) (w₁ w' : World Db)
        → parse_opaque_token code ≡ some parsed
        → get parsed.id w.db.enrollments ≡ some d
        → check_enrollment ports parsed d.installation_id w ≡ (ok (i, e), w₁)
        → consume_enrollment ports d.installation_id i e w₁ ≡ (ok o, w')
        → enroll_installation ports code correlation_id w ≡ (
          ok (record { installation_id = o.installation_id; credential = o.credential }),
          (record_audit ports.env {E = InstallationError} (consumed_event correlation_id o) w').1,
        )
    unfolding enroll_installation enroll_locked record_audit
    enroll_accepted parsed i d e o w₁ w' p found checked written = ground arith

    audited-IsEnrolled :
        (i : Installation) (e : InstallationEnrollment) (o : EnrollmentOutcome) (w' : World Db)
        → IsEnrolled ports i e w' o.credential
        → IsEnrolled ports i e
            (record_audit ports.env {E = InstallationError} (consumed_event correlation_id o) w').1
            o.credential
    unfolding record_audit
    audited-IsEnrolled i e o w' q = record {
      valid = IsValid-later _ q.valid (omega arith);
      at = q.at;
      consumed = q.consumed;
      i' = q.i';
      installation = q.installation;
      activated_at = q.activated_at;
      activation = q.activation;
      credential = q.credential;
      secret = q.secret;
      stored = q.stored;
      owner = q.owner;
      hashed = q.hashed;
      printed = q.printed;
      drawn_id = q.drawn_id;
      drawn_secret = q.drawn_secret;
      alive = q.alive;
      one_active = q.one_active;
    }

    audited-Keeps :
        (o : EnrollmentOutcome) (w' : World Db)
        → Keeps w.db w'.db
        → Keeps w.db
            (record_audit ports.env {E = InstallationError}
              (consumed_event correlation_id o)
              w').1.db
    unfolding record_audit
    audited-Keeps o w' kept = kept

    audited_installations :
        (o : EnrollmentOutcome) (w' : World Db)
        → (record_audit ports.env {E = InstallationError}
            (consumed_event correlation_id o)
            w').1.db.installations
          ≡ w'.db.installations
    unfolding record_audit
    audited_installations o w' = refl

    accepted-Enrolls :
        (parsed : OpaqueToken) (d : InstallationEnrollment) (i : Installation)
        (e : InstallationEnrollment) (x : Text)
        → IsInjective ports.env.next_id
        → Valid ports w
        → parse_opaque_token code ≡ some parsed
        → get parsed.id w.db.enrollments ≡ some d
        → d.installation_id ≡ x
        → i.id ≡ x
        → e.id ≡ parsed.id
        → e ≡ d
        → IsChecked ports parsed x w i e
        → Enrolls code w (enroll_installation ports code correlation_id w)
    unfolding audited-IsEnrolled
    accepted-Enrolls parsed d i e x inj h p found owner same same_e row q =
        let w₁ : World Db = record w { ticks = suc w.ticks } in
        let (o, w', written, to, (r, whole), kept) =
          consume_enrollment-IsEnrolled ports i e w₁ inj h
            (ap (λ y. get y w.db.installations) same ∙ q.found_installation)
            (ap (λ y. get y w.db.enrollments) same_e ∙ q.found_enrollment) q.eligible
            (ports.env.clock w.ticks) q.consumable in
        let checked : IsChecked ports parsed d.installation_id w i e = rw owner q in
        let written' : consume_enrollment ports d.installation_id i e w₁ ≡ (ok o, w') =
          subst (λ y. consume_enrollment ports y i e w₁ ≡ (ok o, w')) (same ∙ sym owner) written in
        let eq =
          enroll_accepted parsed i d e o w₁ w' p found
            (check_complete ports parsed d.installation_id w i e checked) written' in
        subst (Enrolls code w) (sym eq) (
          parsed,
          i,
          e,
          p,
          subst (λ y. IsChecked ports parsed y w i e) (sym (to ∙ same)) q,
          ap (λ y. y.installation_id) row ∙ owner ∙ sym same ∙ sym to,
          audited-IsEnrolled i e o w' r,
          audited-Keeps o w' kept,
          audited_installations o w' ∙ whole,
        )

    discovered-Enrolls :
        (parsed : OpaqueToken) (d : InstallationEnrollment)
        → IsInjective ports.env.next_id
        → Valid ports w
        → parse_opaque_token code ≡ some parsed
        → get parsed.id w.db.enrollments ≡ some d
        → Enrolls code w (enroll_installation ports code correlation_id w)
    discovered-Enrolls parsed d inj h p found =
        elim (Result-cases (check_enrollment ports parsed d.installation_id w).0) [
          | inl ((i, e), passed) ↦
              let q = (check_sound ports parsed d.installation_id w i e passed).0 in
              accepted-Enrolls parsed d i e d.installation_id inj h p found refl
                (key_of_get _ _ _ i h.installations_keyed q.found_installation)
                (key_of_get _ _ _ e h.enrollments.keyed q.found_enrollment)
                (cc (q.found_enrollment, found)) q
          | inr (f, refused) ↦
              let (same_error, same_db, same_trail, same_ids) =
                check_refuses ports parsed d.installation_id w f refused in
              subst (Enrolls code w) (sym (enroll_refused parsed d f p found refused))
                (same_error, refl, same_trail, same_ids)
        ]

    -- Enrolling either fails with `enrollment_failed`, whatever the reason, and changes neither
    -- stores nor trail; or every check has passed: the code parses, its id names a stored
    -- enrollment of the installation that is neither consumed, revoked nor expired, its secret
    -- matches the stored hash, the status allows the purpose, and customer and license are in
    -- order. Then the enrollment is consumed, an initial one has activated the installation and a
    -- recovery has left it, the returned token names a stored active credential with the hash of the token's
    -- secret, it is the only active one of the installation, no other installation has changed, and
    -- the invariant holds.
    pub enroll-Enrolls :
        IsInjective ports.env.next_id
        → Valid ports w
        → Enrolls code w (enroll_installation ports code correlation_id w)
    enroll-Enrolls inj h = elim (Option-cases (parse_opaque_token code)) [
      | inl malformed ↦
          subst (Enrolls code w) (sym (enroll_malformed malformed)) (refl, refl, refl, refl)
      | inr (parsed, p) ↦ elim (Option-cases (get parsed.id w.db.enrollments)) [
        | inl unknown ↦
            subst (Enrolls code w) (sym (enroll_unknown parsed p unknown)) (refl, refl, refl, refl)
        | inr (d, found) ↦ discovered-Enrolls parsed d inj h p found
      ]
    ]
