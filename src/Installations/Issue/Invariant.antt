-- ===== src/Installations/Issue/Invariant.antt =====
-- Issuing an enrollment code: what the use case has done, by how it ended.
use pos_cloud.Common.{
  ℕ, ◌+◌, ◌*◌, ◌≡◌, refl, ◌⊎◌, inl, inr, true, false, none, some, arith, subst, sym, ◌∙◌,
  Bool-cases, Option-cases, Result, ok, err,
}
use pos_cloud.Common.Text.{Text}
use pos_cloud.Common.JsMap.{get, find, count}
use pos_cloud.Common.JsMap.Laws.{get-set_self, get-find, count-find-none}
use pos_cloud.Common.JsMap.Slots.{found_live, IsInjective, retire_clears, insert_occupies}
use pos_cloud.Kernel.{World, AuditActorContext, record_audit}
use pos_cloud.Installations.Enrollment
use pos_cloud.Installations.Enrollment.{InstallationEnrollment}
use pos_cloud.Installations.Status.{is_installation_eligible_for_enrollment}
use pos_cloud.Installations.Errors.{
  InstallationError, installation_not_found, installation_not_eligible_for_enrollment,
}
use pos_cloud.Installations.Installation.{Installation}
use pos_cloud.Installations.Store.{Db, Ports, is_open, is_open_for}
use pos_cloud.Installations.Invariant.{
  IsValid, IsValid-later, close_enrollment-IsValid, add_enrollment-IsValid,
}
use pos_cloud.Installations.History.{
  Keeps, Keeps-same, Keeps-trans, Keeps-enrollment, is_closed_of_open,
}
use pos_cloud.Installations.Token.{format_opaque_token}
use pos_cloud.Installations.Issue.{
  issued_event, IssueInstallationEnrollmentCommand, IssueInstallationEnrollmentResult,
  revoke_open_enrollment, issue_new, issue_locked, issue_installation_enrollment,
}

is_open-revoke : (t : ℕ) (e : InstallationEnrollment) → is_open (Enrollment.revoke t e) ≡ false
unfolding Enrollment.revoke
is_open-revoke t e = ground arith

module _ (ports : Ports) (inj : IsInjective ports.env.next_id) where
  abbrev pub Valid : World Db → Type 0
  Valid w = IsValid ports.env.next_id w.ids w.db

  -- What the revocation of the open code leaves.
  pub record IsFreed (x : Text) (w w' : World Db) : Type 0 where
    pub valid : Valid w'
    pub free : count (is_open_for x) w'.db.enrollments ≡ 0
    pub same_ids : w'.ids ≡ w.ids
    pub same_installations : w'.db.installations ≡ w.db.installations
    pub same_credentials : w'.db.credentials ≡ w.db.credentials
    pub kept : Keeps w.db w'.db

  revoke_open_enrollment-IsFreed :
      (x : Text) (w : World Db)
      → Valid w
      → IsFreed x w (revoke_open_enrollment ports (find (is_open_for x) w.db.enrollments) w).1
  unfolding revoke_open_enrollment Enrollment.revoke
  revoke_open_enrollment-IsFreed x w h =
      elim (Option-cases (find (is_open_for x) w.db.enrollments)) [
        | inl closed ↦
            rw (closed, revoke_open_enrollment)
              (record {
                valid = h;
                free = count-find-none (is_open_for x) w.db.enrollments closed;
                same_ids = refl;
                same_installations = refl;
                same_credentials = refl;
                kept = Keeps-same w.db w.db refl refl refl;
              })
        | inr (e, found) ↦
            let e' : InstallationEnrollment = Enrollment.revoke (ports.env.clock w.ticks) e in
            rw (found, revoke_open_enrollment)
              (record {
                valid =
                    close_enrollment-IsValid _ e' e h (get-find _ _ _ e h.enrollments.keyed found)
                      (is_open-revoke (ports.env.clock w.ticks) e);
                free =
                    retire_clears _ _ _ _ x e' e h.enrollments found refl
                      (is_open-revoke (ports.env.clock w.ticks) e);
                same_ids = refl;
                same_installations = refl;
                same_credentials = refl;
                kept = Keeps-enrollment w.db e.id e' λ u there.
                    is_closed_of_open u
                      (found_live _ _ _ x w.db.enrollments e h.enrollments.keyed found u there);
              })
      ]

  -- The enrollment that a call stores and the code that it returns.
  pub record IsIssued (command : IssueInstallationEnrollmentCommand) (w w' : World Db)
      (r : IssueInstallationEnrollmentResult) : Type 0 where
    pub valid : Valid w'
    pub enrollment : InstallationEnrollment
    pub secret : Text
    pub stored : get enrollment.id w'.db.enrollments ≡ some enrollment
    pub owner : enrollment.installation_id ≡ command.installation_id
    pub purpose : enrollment.purpose ≡ command.purpose
    pub hashed : enrollment.code_hash ≡ ports.env.sha256_hex secret
    pub code : r.enrollment_code ≡ format_opaque_token enrollment.id secret
    pub expires : r.expires_at ≡ enrollment.expires_at
    pub lifetime :
        enrollment.expires_at ≡ enrollment.created_at + ports.enrollment_code_ttl_seconds * 1000
    pub still_open : is_open enrollment ≡ true
    pub one_open : count (is_open_for command.installation_id) w'.db.enrollments ≡ 1
    pub same_installations : w'.db.installations ≡ w.db.installations
    pub same_credentials : w'.db.credentials ≡ w.db.credentials
    pub kept : Keeps w.db w'.db

  issue_new-IsIssued :
      (command : IssueInstallationEnrollmentCommand) (w : World Db)
      → Valid w
      → count (is_open_for command.installation_id) w.db.enrollments ≡ 0
      → (r : IssueInstallationEnrollmentResult) × ((issue_new ports command w).0 ≡ ok r)
        × IsIssued command w (issue_new ports command w).1 r
  unfolding issue_new Enrollment.issue
  issue_new-IsIssued command w h free = (
    _,
    refl,
    record {
      valid = add_enrollment-IsValid _ _ inj h refl free;
      enrollment = _;
      secret = ports.env.next_secret w.secrets;
      stored = get-set_self _ _ w.db.enrollments;
      owner = refl;
      purpose = refl;
      hashed = refl;
      code = refl;
      expires = refl;
      lifetime = refl;
      still_open = refl;
      one_open = insert_occupies _ _ _ _ _ h.enrollments refl refl free;
      same_installations = refl;
      same_credentials = refl;
      kept =
          Keeps-enrollment w.db _ _
            λ u there. absurd (cc (there, h.enrollments.fresh w.ids (omega arith)));
    },
  )

  -- What a call has done, by how it ended.
  abbrev pub Issues :
      IssueInstallationEnrollmentCommand
      → World Db
      → Result InstallationError IssueInstallationEnrollmentResult × World Db
      → Type 0
  Issues command w (ok r, w') =
      (i : Installation) × (get command.installation_id w.db.installations ≡ some i)
      × (is_installation_eligible_for_enrollment i.status command.purpose ≡ true)
      × IsIssued command w w' r
  Issues command w (err e, w') =
      (w' ≡ w)
      × (((e ≡ installation_not_found) × (get command.installation_id w.db.installations ≡ none))
          ⊎ ((i : Installation) × (get command.installation_id w.db.installations ≡ some i)
              × (is_installation_eligible_for_enrollment i.status command.purpose ≡ false)
              × (e ≡ installation_not_eligible_for_enrollment i.status command.purpose)))

  module _ (command : IssueInstallationEnrollmentCommand) (actor : AuditActorContext)
      (w : World Db) where
    issue_missing :
        get command.installation_id w.db.installations ≡ none
        → issue_installation_enrollment ports command actor w ≡ (err installation_not_found, w)
    unfolding issue_installation_enrollment issue_locked
    issue_missing missing = ground arith

    issue_refused :
        (i : Installation)
        → get command.installation_id w.db.installations ≡ some i
        → is_installation_eligible_for_enrollment i.status command.purpose ≡ false
        → issue_installation_enrollment ports command actor w
          ≡ (err (installation_not_eligible_for_enrollment i.status command.purpose), w)
    unfolding issue_installation_enrollment issue_locked
    issue_refused i found refused = ground arith

    abbrev freed : World Db
    freed =
        (revoke_open_enrollment ports (find (is_open_for command.installation_id) w.db.enrollments)
          w).1

    abbrev issued : World Db
    issued = (issue_new ports command freed).1

    issue_accepted :
        (i : Installation) (r : IssueInstallationEnrollmentResult)
        → get command.installation_id w.db.installations ≡ some i
        → is_installation_eligible_for_enrollment i.status command.purpose ≡ true
        → (issue_new ports command freed).0 ≡ ok r
        → issue_installation_enrollment ports command actor w ≡ (
          ok r,
          (record_audit ports.env {E = InstallationError} (issued_event actor command) issued).1,
        )
    unfolding issue_installation_enrollment issue_locked record_audit revoke_open_enrollment
    issue_accepted i r found eligible new = ground arith

    audited-IsIssued :
        (r : IssueInstallationEnrollmentResult)
        → IsFreed command.installation_id w freed
        → IsIssued command freed issued r
        → IsIssued command w
            (record_audit ports.env {E = InstallationError} (issued_event actor command) issued).1
            r
    unfolding record_audit
    audited-IsIssued r f q = record {
      valid = IsValid-later _ q.valid (omega arith);
      enrollment = q.enrollment;
      secret = q.secret;
      stored = q.stored;
      owner = q.owner;
      purpose = q.purpose;
      hashed = q.hashed;
      code = q.code;
      expires = q.expires;
      lifetime = q.lifetime;
      still_open = q.still_open;
      one_open = q.one_open;
      same_installations = q.same_installations ∙ f.same_installations;
      same_credentials = q.same_credentials ∙ f.same_credentials;
      kept = Keeps-trans w.db freed.db _ f.kept q.kept;
    }

    accepted-Issues :
        (i : Installation)
        → Valid w
        → get command.installation_id w.db.installations ≡ some i
        → is_installation_eligible_for_enrollment i.status command.purpose ≡ true
        → Issues command w (issue_installation_enrollment ports command actor w)
    accepted-Issues i h found eligible =
        let f = revoke_open_enrollment-IsFreed command.installation_id w h in
        let (r, returned, q) = issue_new-IsIssued command freed f.valid f.free in
        subst (Issues command w) (sym (issue_accepted i r found eligible returned))
          (i, found, eligible, audited-IsIssued r f q)

    -- Issuing a code either fails and changes neither store nor trail, because the installation is
    -- unknown or because its status does not allow the purpose; or it succeeds for an installation
    -- whose status allows it. Then the code names a stored open enrollment that expires after the
    -- configured time, the stored hash is that of the code's secret, the installation has exactly one open
    -- enrollment, the invariant holds, and installations and credentials are as they were.
    pub issue-Issues :
        Valid w → Issues command w (issue_installation_enrollment ports command actor w)
    issue-Issues h = elim (Option-cases (get command.installation_id w.db.installations)) [
      | inl missing ↦
          subst (Issues command w) (sym (issue_missing missing)) (refl, inl (refl, missing))
      | inr (i, found) ↦
          elim (Bool-cases (is_installation_eligible_for_enrollment i.status command.purpose)) [
            | inl eligible ↦ accepted-Issues i h found eligible
            | inr refused ↦
                subst (Issues command w) (sym (issue_refused i found refused))
                  (refl, inr (i, found, refused, refl))
          ]
    ]
