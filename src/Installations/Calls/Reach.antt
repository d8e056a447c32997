-- ===== src/Installations/Calls/Reach.antt =====
-- What holds after any sequence of calls.
use pos_cloud.Common.{
  ℕ, ◌≡◌, refl, ◌≢◌, false, Option, some, List, [], ◌∷◌, Result, ok, err, All, arith, ap, subst,
  sym, ◌∙◌,
}
use pos_cloud.Common.Text.{Text}
use pos_cloud.Common.JsMap.{get}
use pos_cloud.Common.JsMap.Slots.{IsInjective}
use pos_cloud.Kernel.{World, AuditActorContext}
use pos_cloud.Installations.Status.{InstallationStatus, decommissioned, same_status}
use pos_cloud.Installations.Errors.{InstallationError}
use pos_cloud.Installations.Installation.{Installation}
use pos_cloud.Installations.Store.{Db, Ports}
use pos_cloud.Installations.Invariant.{IsValid}
use pos_cloud.Installations.History.{Keeps, Keeps-same, Keeps-trans, Keeps-installation, is_ended}
use pos_cloud.Installations.Create.{CreateInstallationCommand, create_installation}
use pos_cloud.Installations.Create.Outcome.{Creates, create-Creates}
use pos_cloud.Installations.Issue.{
  IssueInstallationEnrollmentCommand, IssueInstallationEnrollmentResult,
  issue_installation_enrollment,
}
use pos_cloud.Installations.Issue.Invariant.{Issues, issue-Issues}
use pos_cloud.Installations.Enroll.{EnrollInstallationResult, enroll_installation}
use pos_cloud.Installations.Enroll.Outcome.{Enrolls, enroll-Enrolls}
use pos_cloud.Installations.Admin.{change_installation_status, revoke_installation_credential}
use pos_cloud.Installations.Admin.Outcome.{Changes, change_status-Changes, Revokes, revoke-Revokes}
use pos_cloud.Installations.Health.{record_installation_heartbeat}
use pos_cloud.Installations.Calls.{
  Call, creates, issues, enrolls, changes_status, revokes, beats, serve, serve_all,
}

same_world : (w : World Db) → Keeps w.db w.db
same_world w = Keeps-same w.db w.db refl refl refl

some_injective : {A : Type 0} (a b : A) → some a ≡ some b → a ≡ b
some_injective a b h = cc h

not_ended : (i : Installation) → i.status ≢ decommissioned → is_ended i ≡ false
unfolding same_status
not_ended i h = ground arith

module _ (ports : Ports) (w : World Db) where
  abbrev pub Valid : World Db → Type 0
  Valid u = IsValid ports.env.next_id u.ids u.db

  -- The invariant holds, and nothing final is undone.
  abbrev pub Served : World Db → Type 0
  Served u = Valid u × Keeps w.db u.db

  created :
      (command : CreateInstallationCommand) (o : Result InstallationError Installation × World Db)
      → Valid w
      → Creates ports command w o
      → Served o.1
  created command (ok i, w') h (l, code, allowed, new, stored, more, whole, valid) = (
    valid,
    subst (Keeps w.db) (sym whole) (
        Keeps-installation w.db i.id i λ u there. absurd (
          cc (
            there,
            ap (λ k. get k w.db.installations) new.id,
            h.installations_fresh w.ids (omega arith),
          ))),
  )
  created command (err f, w') h (same_db, same_trail, valid) =
      (valid, subst (Keeps w.db) (sym same_db) (Keeps-same w.db w.db refl refl refl))

  issued :
      (inj : IsInjective ports.env.next_id) (command : IssueInstallationEnrollmentCommand)
      (o : Result InstallationError IssueInstallationEnrollmentResult × World Db)
      → Valid w
      → Issues ports inj command w o
      → Served o.1
  issued inj command (ok r, w') h (i, found, eligible, q) = (q.valid, q.kept)
  issued inj command (err f, w') h (same, why) = subst Served (sym same) (h, same_world w)

  enrolled :
      (code : Text) (o : Result InstallationError EnrollInstallationResult × World Db)
      → Valid w
      → Enrolls ports code w o
      → Served o.1
  enrolled code (ok r, w') h (parsed, i, e, p, checked, owner, q, kept, whole) = (q.valid, kept)
  enrolled code (err f, w') h (failed, same_db, same_trail, same_ids) = (
    subst (λ n. IsValid ports.env.next_id n w'.db) (sym same_ids)
        (subst (IsValid ports.env.next_id w.ids) (sym same_db) h),
    subst (Keeps w.db) (sym same_db) (same_world w),
  )

  changed :
      (x : Text) (next : InstallationStatus) (actor : AuditActorContext)
      (o : Result InstallationError Installation × World Db)
      → Valid w
      → Changes ports x next actor w o
      → Served o.1
  changed x next actor (ok i', w') h (i, found, move, moved, whole, valid) = (
    valid,
    subst (Keeps w.db) (sym whole) (
        Keeps-installation w.db x i' λ u there.
          subst (λ y. is_ended y ≡ false) (some_injective i u (sym found ∙ there))
            (not_ended i move.1)),
  )
  changed x next actor (err f, w') h (same, why) = subst Served (sym same) (h, same_world w)

  revoked :
      (x : Text) (actor : AuditActorContext) (o : Result InstallationError (Unit {0}) × World Db)
      → Valid w
      → Revokes ports x actor w o
      → Served o.1
  revoked x actor (ok u, w') h (known, none_active, same_i, same_e, idle, valid, kept) =
      (valid, kept)
  revoked x actor (err f, w') h (failed, missing, same) = subst Served (sym same) (h, same_world w)

  beaten :
      (x version : Text) (reported : Option ℕ)
      → Valid w
      → Served (record_installation_heartbeat ports x version reported w).1
  unfolding record_installation_heartbeat
  beaten x version reported h = (
    record {
      installations_keyed = h.installations_keyed;
      installations_fresh = h.installations_fresh;
      unique_codes = h.unique_codes;
      stamped = h.stamped;
      enrollments = h.enrollments;
      credentials = h.credentials;
      credentialed = h.credentialed;
    },
    Keeps-same w.db _ refl refl refl,
  )

  pub served : (call : Call) → IsInjective ports.env.next_id → Valid w → Served (serve ports call w)
  unfolding serve
  served (creates command actor) inj h =
      created command (create_installation ports command actor w) h
        (create-Creates ports command w actor inj h)
  served (issues command actor) inj h =
      issued inj command (issue_installation_enrollment ports command actor w) h
        (issue-Issues ports inj command actor w h)
  served (enrolls code correlation_id) inj h =
      enrolled code (enroll_installation ports code correlation_id w) h
        (enroll-Enrolls ports code correlation_id w inj h)
  served (changes_status x next actor) inj h =
      changed x next actor (change_installation_status ports x next actor w) h
        (change_status-Changes ports x next actor w h)
  served (revokes x actor) inj h =
      revoked x actor (revoke_installation_credential ports x actor w) h
        (revoke-Revokes ports x actor w h)
  served (beats x version reported) inj h = beaten x version reported h

module _ (next_id : ℕ → Text) where
  abbrev pub HasIds : List (Ports × Call) → Type 0
  HasIds calls = All (λ (c : Ports × Call). c.0.env.next_id ≡ next_id) calls

  served_same :
      (ports : Ports) (call : Call) (w : World Db)
      → ports.env.next_id ≡ next_id
      → IsInjective next_id
      → IsValid next_id w.ids w.db
      → IsValid next_id (serve ports call w).ids (serve ports call w).db
        × Keeps w.db (serve ports call w).db
  served_same ports call w same =
      subst
        (λ f.
          IsInjective f
          → IsValid f w.ids w.db
          → IsValid f (serve ports call w).ids (serve ports call w).db
            × Keeps w.db (serve ports call w).db)
        same (served ports w call)

  -- After any sequence of calls on stores with the invariant, with whatever other contexts answer
  -- at each, the invariant holds: among others every installation has at most one open enrollment
  -- and at most one active credential. And what was final stays as it was: consumed and revoked
  -- enrollments, revoked credentials and decommissioned installations.
  pub serve_all-IsValid :
      (calls : List (Ports × Call)) (w : World Db)
      → HasIds calls
      → IsInjective next_id
      → IsValid next_id w.ids w.db
      → IsValid next_id (serve_all calls w).ids (serve_all calls w).db
        × Keeps w.db (serve_all calls w).db
  unfolding serve_all
  serve_all-IsValid [] w same inj h = (h, same_world w)
  serve_all-IsValid ((ports, call) ∷ calls) w (same, others) inj h =
      let (h', kept) = served_same ports call w same inj h in
      let (h'', later) = serve_all-IsValid calls (serve ports call w) others inj h' in
      (
        h'',
        Keeps-trans w.db (serve ports call w).db (serve_all calls (serve ports call w)).db kept
            later,
      )
