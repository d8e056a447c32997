-- ===== src/Installations/Calls/Capacity.antt =====
-- What licenses allow, across the calls. Every license allows a number of installations and
-- belongs to customers; the ports answer within what the licenses allow.
use pos_cloud.Common.{
  ℕ, suc, ◌≤◌, ◌≡◌, ◌≢◌, ◌∙◌, inl, inr, true, none, some, Result, ok, err, arith, ap, subst, sym,
  Bool-cases,
}
use pos_cloud.Common.Text.{Text, ◌===◌, ===_iff}
use pos_cloud.Common.JsMap.{JsMap, get, set, count}
use pos_cloud.Common.JsMap.Laws.{get-set, count-set, key_of_get}
use pos_cloud.Common.JsMap.Slots.{IsInjective}
use pos_cloud.Kernel.{World, AuditActorContext}
use pos_cloud.Installations.Status.{
  InstallationStatus, InstallationEnrollmentPurpose, is_installation_eligible_for_enrollment,
  decommissioned, same_status,
}
use pos_cloud.Installations.Errors.{InstallationError}
use pos_cloud.Installations.Installation.{Installation}
use pos_cloud.Installations.Store.{Db, Ports, LicenseSummary, counts_for_license}
use pos_cloud.Installations.Invariant.{IsValid}
use pos_cloud.Installations.Create.{CreateInstallationCommand, create_installation}
use pos_cloud.Installations.Create.Outcome.{Creates, create-Creates}
use pos_cloud.Installations.Issue.{
  IssueInstallationEnrollmentResult, IssueInstallationEnrollmentCommand,
  issue_installation_enrollment,
}
use pos_cloud.Installations.Issue.Invariant.{Issues, issue-Issues}
use pos_cloud.Installations.Enroll.{EnrollInstallationResult, enroll_installation}
use pos_cloud.Installations.Enroll.Outcome.{Enrolls, enroll-Enrolls}
use pos_cloud.Installations.Admin.{change_installation_status, revoke_installation_credential}
use pos_cloud.Installations.Admin.Outcome.{Changes, change_status-Changes, Revokes, revoke-Revokes}
use pos_cloud.Installations.Health.{record_installation_heartbeat}
use pos_cloud.Installations.Calls.{
  Call, creates, issues, enrolls, changes_status, revokes, beats, serve,
}

module _ (allowed : Text → ℕ) (owns : Text → Text → Type 0) where
  -- No license has more installations that are not decommissioned than it allows, and every
  -- installation belongs to the customer of its license.
  pub record Fits (m : JsMap Installation) : Type 0 where
    pub capacity : (license : Text) → count (counts_for_license license) m ≤ allowed license
    pub owned : (k : Text) (i : Installation) → get k m ≡ some i → owns i.license_id i.customer_id

  -- What the ports answer of a license is at most what it allows, and of its customer.
  abbrev pub IsWithin : Ports → Type 0
  IsWithin ports =
      (id : Text) (l : LicenseSummary)
      → ports.find_license_summary id ≡ some l
      → (l.max_installations ≤ allowed id) × owns id l.customer_id

  owned-set :
      (i : Installation) (j : Text) (m : JsMap Installation)
      → ((k : Text) (u : Installation) → get k m ≡ some u → owns u.license_id u.customer_id)
      → owns i.license_id i.customer_id
      → (k : Text) (u : Installation) → get k (set j i m) ≡ some u
      → owns u.license_id u.customer_id
  owned-set i j m old new k u found = elim (Bool-cases (k === j)) [
    | inl same ↦
        let e : i ≡ u = ground (arith, get-set k j i m) in
        subst (λ (v : Installation). owns v.license_id v.customer_id) e new
    | inr other ↦ old k u (ground (arith, get-set k j i m))
  ]

  counted_less :
      (i i' : Installation) (license : Text) (m : JsMap Installation) (j : Text)
      → get j m ≡ some i
      → i'.license_id ≡ i.license_id
      → i.status ≢ decommissioned
      → count (counts_for_license license) (set j i' m) ≤ count (counts_for_license license) m
  unfolding same_status
  counted_less i i' license m j found same live =
      ground (arith, count-set (counts_for_license license) j i' m)

  -- A change of an installation that is not decommissioned, to whatever status.
  Fits-update :
      (m : JsMap Installation) (i i' : Installation) (j : Text)
      → Fits m
      → get j m ≡ some i
      → i'.license_id ≡ i.license_id
      → i'.customer_id ≡ i.customer_id
      → i.status ≢ decommissioned
      → Fits (set j i' m)
  Fits-update m i i' j h found same_l same_c live = record {
    capacity = λ license.
        omega (arith, h.capacity license, counted_less i i' license m j found same_l live);
    owned = owned-set i' j m h.owned (rw (same_l, same_c) (h.owned j i found));
  }

  Fits-insert :
      (m : JsMap Installation) (i : Installation) (max : ℕ)
      → Fits m
      → get i.id m ≡ none
      → suc (count (counts_for_license i.license_id) m) ≤ max
      → max ≤ allowed i.license_id
      → owns i.license_id i.customer_id
      → Fits (set i.id i m)
  Fits-insert m i max h absent room within own = record {
    capacity = λ license. elim (Bool-cases (i.license_id === license)) [
      | inl same ↦
          subst (λ x. count (counts_for_license x) (set i.id i m) ≤ allowed x)
            ((===_iff i.license_id license).0 same)
            (ground (arith, count-set (counts_for_license i.license_id) i.id i m))
      | inr other ↦
          ground (arith, count-set (counts_for_license license) i.id i m, h.capacity license)
    ];
    owned = owned-set i i.id m h.owned own;
  }

  eligible_alive :
      (s : InstallationStatus) (p : InstallationEnrollmentPurpose)
      → is_installation_eligible_for_enrollment s p ≡ true
      → s ≢ decommissioned
  unfolding is_installation_eligible_for_enrollment
  eligible_alive s p h e = ground arith

  module _ (ports : Ports) (w : World Db) (valid : IsValid ports.env.next_id w.ids w.db)
      (fit : Fits w.db.installations) where
    created :
        (command : CreateInstallationCommand) (o : Result InstallationError Installation × World Db)
        → IsWithin ports
        → Creates ports command w o
        → Fits o.1.db.installations
    created command (err f, w') within (same, trail, later) =
        subst (λ (d : Db). Fits d.installations) (sym same) fit
    created command (ok i, w') within (l, code, allows, new, stored, more, whole, later) =
        let (below, own) = within command.license_id l allows.found_license in
        let absent : get i.id w.db.installations ≡ none =
          rw new.id (valid.installations_fresh w.ids (omega arith)) in
        subst (λ (d : Db). Fits d.installations) (sym whole)
          (Fits-insert w.db.installations i l.max_installations fit absent
            (rw new.license allows.capacity) (rw new.license below)
            (rw (new.license, new.customer) (subst (owns command.license_id) allows.owner own)))

    issued :
        (inj : IsInjective ports.env.next_id) (command : IssueInstallationEnrollmentCommand)
        (o : Result InstallationError IssueInstallationEnrollmentResult × World Db)
        → Issues ports inj command w o
        → Fits o.1.db.installations
    issued inj command (ok r, w') (i, found, eligible, q) =
        subst Fits (sym q.same_installations) fit
    issued inj command (err f, w') (same, why) =
        subst (λ (u : World Db). Fits u.db.installations) (sym same) fit

    activated :
        (i i' : Installation) (x : Text)
        → get x w.db.installations ≡ some i
        → i'.license_id ≡ i.license_id
        → i'.customer_id ≡ i.customer_id
        → i.status ≢ decommissioned
        → Fits (set i.id i' w.db.installations)
    activated i i' x found same_l same_c live =
        let same = key_of_get _ _ _ i valid.installations_keyed found in
        Fits-update w.db.installations i i' i.id fit
          (ap (λ y. get y w.db.installations) same ∙ found) same_l same_c live

    enrolled :
        (code : Text) (o : Result InstallationError EnrollInstallationResult × World Db)
        → Enrolls ports code w o
        → Fits o.1.db.installations
    enrolled code (err f, w') (failed, same, trail, ids) =
        subst (λ (d : Db). Fits d.installations) (sym same) fit
    enrolled code (ok r, w') (parsed, i, e, p, checked, owner, q, kept, whole) =
        let alive = eligible_alive i.status e.purpose checked.eligible in
        subst Fits (sym whole) (elim q.activation [
          | inl (initial, moved) ↦
              activated i q.i' r.installation_id checked.found_installation
                (ap (λ (y : Installation). y.license_id) moved)
                (ap (λ (y : Installation). y.customer_id) moved) alive
          | inr (recovery, same) ↦
              activated i q.i' r.installation_id checked.found_installation
                (ap (λ (y : Installation). y.license_id) same)
                (ap (λ (y : Installation). y.customer_id) same) alive
        ])

    changed :
        (x : Text) (next : InstallationStatus) (actor : AuditActorContext)
        (o : Result InstallationError Installation × World Db)
        → Changes ports x next actor w o
        → Fits o.1.db.installations
    changed x next actor (ok i', w') (i, found, move, moved, whole, later) =
        subst (λ (d : Db). Fits d.installations) (sym whole)
          (Fits-update w.db.installations i i' x fit found
            (ap (λ (y : Installation). y.license_id) moved)
            (ap (λ (y : Installation). y.customer_id) moved) move.1)
    changed x next actor (err f, w') (same, why) =
        subst (λ (u : World Db). Fits u.db.installations) (sym same) fit

    revoked :
        (x : Text) (actor : AuditActorContext) (o : Result InstallationError (Unit {0}) × World Db)
        → Revokes ports x actor w o
        → Fits o.1.db.installations
    revoked x actor (ok u, w') (known, none_active, same_i, same_e, idle, later, kept) =
        subst Fits (sym same_i) fit
    revoked x actor (err f, w') (failed, missing, same) =
        subst (λ (u : World Db). Fits u.db.installations) (sym same) fit

    -- No call lets a license have more installations than it allows, or one of another customer,
    -- as long as the port answers within what licenses allow.
    pub serve-Fits :
        (call : Call)
        → IsInjective ports.env.next_id
        → IsWithin ports
        → Fits (serve ports call w).db.installations
    unfolding serve record_installation_heartbeat
    serve-Fits (creates command actor) inj within =
        created command (create_installation ports command actor w) within
          (create-Creates ports command w actor inj valid)
    serve-Fits (issues command actor) inj within =
        issued inj command (issue_installation_enrollment ports command actor w)
          (issue-Issues ports inj command actor w valid)
    serve-Fits (enrolls code correlation_id) inj within =
        enrolled code (enroll_installation ports code correlation_id w)
          (enroll-Enrolls ports code correlation_id w inj valid)
    serve-Fits (changes_status x next actor) inj within =
        changed x next actor (change_installation_status ports x next actor w)
          (change_status-Changes ports x next actor w valid)
    serve-Fits (revokes x actor) inj within =
        revoked x actor (revoke_installation_credential ports x actor w)
          (revoke-Revokes ports x actor w valid)
    serve-Fits (beats x version reported) inj within = fit
