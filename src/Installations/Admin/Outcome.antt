-- ===== src/Installations/Admin/Outcome.antt =====
-- The status changes and the revocations of administrators: what each has done, by how it ended.
use pos_cloud.Common.{
  ℕ, suc, ◌≡◌, refl, ◌≢◌, ◌⊎◌, inl, inr, true, false, none, some, arith, ap, subst, sym, ◌∙◌,
  Bool-cases, Option-cases, Result, ok, err,
}
use pos_cloud.Common.Text.{Text}
use pos_cloud.Common.JsMap.{get, set, find, count}
use pos_cloud.Common.JsMap.Laws.{key_of_get, get-find, find_sound, count-find-none, count-get}
use pos_cloud.Kernel.{World, AuditActorContext, record_audit}
use pos_cloud.Installations.Status.{
  InstallationStatus, pending, active, suspended, decommissioned,
  is_installation_admin_transition_allowed,
}
use pos_cloud.Installations.Errors.{
  InstallationError, installation_not_found, invalid_installation_status_transition,
}
use pos_cloud.Installations.Installation.{Installation, change_status}
use pos_cloud.Installations.Credential.{InstallationCredential}
use pos_cloud.Installations.Store.{Db, Ports, is_active_for}
use pos_cloud.Installations.History.{Keeps, Keeps-same}
use pos_cloud.Installations.Invariant.{
  IsStamped, IsValid, IsValid-later, update_installation-IsValid,
}
use pos_cloud.Installations.Enroll.{revoke_active_credential}
use pos_cloud.Installations.Enroll.Steps.{revoke_active_credential-IsCleared}
use pos_cloud.Installations.Admin.{
  status_changed_event, credential_revoked_event, apply_status, change_installation_status,
  revoke_found, revoke_installation_credential,
}

-- A transition that an administrator may ask for leaves PENDING only to DECOMMISSIONED, never
-- returns to PENDING, and never leaves DECOMMISSIONED.
abbrev pub IsAdminMove : InstallationStatus → InstallationStatus → Type 0
IsAdminMove from to =
    (to ≢ pending) × (from ≢ decommissioned) × (from ≢ to) × (from ≡ pending → to ≡ decommissioned)

pub transition_sound :
    (from to : InstallationStatus)
    → is_installation_admin_transition_allowed from to ≡ true
    → IsAdminMove from to
unfolding is_installation_admin_transition_allowed
transition_sound from to h = ground arith

pub transition_complete :
    (from to : InstallationStatus)
    → IsAdminMove from to
    → is_installation_admin_transition_allowed from to ≡ true
unfolding is_installation_admin_transition_allowed
transition_complete from to (a, b, c, d) = ground arith

left_status :
    (from to : InstallationStatus)
    → IsAdminMove from to
    → (to ≡ active) ⊎ (to ≡ suspended)
    → (from ≡ active) ⊎ (from ≡ suspended)
left_status from to (a, b, c, d) h = ground arith

module _ (ports : Ports) where
  abbrev pub Valid : World Db → Type 0
  Valid w = IsValid ports.env.next_id w.ids w.db

  module _ (x : Text) (next : InstallationStatus) (actor : AuditActorContext) (w : World Db) where
    abbrev t : ℕ
    t = ports.env.clock w.ticks

    -- What a call has done, by how it ended.
    abbrev pub Changes : Result InstallationError Installation × World Db → Type 0
    Changes (ok i', w') =
        (i : Installation) × (get x w.db.installations ≡ some i)
        × IsAdminMove i.status next
        × (i' ≡ record i { status = next; updated_at = t })
        × (w'.db ≡ record (w.db) { installations = set x i' w.db.installations })
        × Valid w'
    Changes (err f, w') =
        (w' ≡ w)
        × (((f ≡ installation_not_found) × (get x w.db.installations ≡ none))
            ⊎ ((i : Installation) × (get x w.db.installations ≡ some i)
                × (f ≡ invalid_installation_status_transition i.status next)
                × ¬ IsAdminMove i.status next))

    change_missing :
        get x w.db.installations ≡ none
        → change_installation_status ports x next actor w ≡ (err installation_not_found, w)
    unfolding change_installation_status
    change_missing missing = ground arith

    change_refused :
        (i : Installation)
        → get x w.db.installations ≡ some i
        → is_installation_admin_transition_allowed i.status next ≡ false
        → change_installation_status ports x next actor w
          ≡ (err (invalid_installation_status_transition i.status next), w)
    unfolding change_installation_status apply_status
    change_refused i found refused = ground arith

    abbrev changed : Installation → Installation
    changed i = record i { status = next; updated_at = t }

    abbrev after : Installation → World Db
    after i = record w {
      ticks = suc w.ticks;
      db = record (w.db) { installations = set i.id (changed i) w.db.installations };
    }

    change_accepted :
        (i : Installation)
        → get x w.db.installations ≡ some i
        → is_installation_admin_transition_allowed i.status next ≡ true
        → change_installation_status ports x next actor w ≡ (
          ok (changed i),
          (record_audit ports.env {E = InstallationError}
              (status_changed_event actor i.id i.status next)
              (after i)).1,
        )
    unfolding change_installation_status apply_status change_status record_audit
    change_accepted i found allowed = ground arith

    changed-IsStamped :
        (i : Installation) → IsStamped i → IsAdminMove i.status next → IsStamped (changed i)
    changed-IsStamped i s m = (λ p. absurd (m.0 p), λ q. s.1 (left_status i.status next m q))

    accepted-Changes :
        (i : Installation)
        → Valid w
        → get x w.db.installations ≡ some i
        → i.id ≡ x
        → is_installation_admin_transition_allowed i.status next ≡ true
        → Changes (change_installation_status ports x next actor w)
    unfolding record_audit
    accepted-Changes i h found same allowed =
        let m = transition_sound i.status next allowed in
        subst Changes (sym (change_accepted i found allowed)) (
          i,
          found,
          m,
          refl,
          ap (λ y. record (w.db) { installations = set y (changed i) w.db.installations }) same,
          IsValid-later _
              (update_installation-IsValid _ (changed i) i h
                (ap (λ y. get y w.db.installations) same ∙ found) refl m.0
                (changed-IsStamped i (h.stamped x i found) m))
              (omega arith),
        )

    -- Changing a status fails with nothing changed, because the installation is unknown or because
    -- the move is none that an administrator may make; or the move is one of these, the installation is stored
    -- with the status and the time of the change and nothing else of the stores differs. A status
    -- is never PENDING after it, PENDING is left only for DECOMMISSIONED, which is never left.
    pub change_status-Changes : Valid w → Changes (change_installation_status ports x next actor w)
    change_status-Changes h = elim (Option-cases (get x w.db.installations)) [
      | inl missing ↦ subst Changes (sym (change_missing missing)) (refl, inl (refl, missing))
      | inr (i, found) ↦
          elim (Bool-cases (is_installation_admin_transition_allowed i.status next)) [
            | inl allowed ↦
                accepted-Changes i h found (key_of_get _ _ _ i h.installations_keyed found) allowed
            | inr refused ↦
                subst Changes (sym (change_refused i found refused)) (
                  refl,
                  inr (i, found, refl, λ m. cc (transition_complete i.status next m, refused)),
                )
          ]
    ]

  module _ (x : Text) (actor : AuditActorContext) (w : World Db) where
    -- What a call has done, by how it ended.
    abbrev pub Revokes : Result InstallationError (Unit {0}) × World Db → Type 0
    Revokes (ok u, w') =
        (get x w.db.installations ≢ none)
        × (count (is_active_for x) w'.db.credentials ≡ 0)
        × (w'.db.installations ≡ w.db.installations)
        × (w'.db.enrollments ≡ w.db.enrollments)
        × (count (is_active_for x) w.db.credentials ≡ 0 → w' ≡ w)
        × Valid w'
        × Keeps w.db w'.db
    Revokes (err f, w') =
        (f ≡ installation_not_found) × (get x w.db.installations ≡ none) × (w' ≡ w)

    revoke_missing :
        get x w.db.installations ≡ none
        → revoke_installation_credential ports x actor w ≡ (err installation_not_found, w)
    unfolding revoke_installation_credential
    revoke_missing missing = ground arith

    revoke_nothing :
        (i : Installation)
        → get x w.db.installations ≡ some i
        → find (is_active_for x) w.db.credentials ≡ none
        → revoke_installation_credential ports x actor w ≡ (ok tt, w)
    unfolding revoke_installation_credential revoke_found
    revoke_nothing i found nothing = ground arith

    revoke_something :
        (i : Installation) (c : InstallationCredential) (w' : World Db)
        → get x w.db.installations ≡ some i
        → find (is_active_for x) w.db.credentials ≡ some c
        → revoke_active_credential ports x w ≡ (ok tt, w')
        → revoke_installation_credential ports x actor w
          ≡ (record_audit ports.env {E = InstallationError} (credential_revoked_event actor x) w')
    unfolding revoke_installation_credential revoke_found revoke_active_credential record_audit
    revoke_something i c w' found there done = ground arith

    -- Revoking a credential fails with nothing changed if the installation is unknown; otherwise it
    -- succeeds, the installation has no active credential, installations and enrollments are as
    -- they were and the invariant is kept. Without an active credential nothing at all changes, so
    -- that no second revocation is audited.
    pub revoke-Revokes : Valid w → Revokes (revoke_installation_credential ports x actor w)
    unfolding record_audit
    revoke-Revokes h = elim (Option-cases (get x w.db.installations)) [
      | inl missing ↦ subst Revokes (sym (revoke_missing missing)) (refl, missing, refl)
      | inr (i, found) ↦ elim (Option-cases (find (is_active_for x) w.db.credentials)) [
        | inl nothing ↦ subst Revokes (sym (revoke_nothing i found nothing)) (
          λ e. cc (found, e),
          count-find-none (is_active_for x) w.db.credentials nothing,
          refl,
          refl,
          λ z. refl,
          h,
          Keeps-same w.db w.db refl refl refl,
        )
        | inr (c, there) ↦
            let (w', done, q) = revoke_active_credential-IsCleared ports x w h in
            subst Revokes (sym (revoke_something i c w' found there done)) (
              λ e. cc (found, e),
              q.free,
              q.same_installations,
              q.same_enrollments,
              λ z. absurd (
                  omega (
                    arith,
                    z,
                    count-get (is_active_for x) c.id w.db.credentials c
                        (get-find _ _ _ c h.credentials.keyed there)
                        (find_sound (is_active_for x) w.db.credentials c there),
                  )),
              IsValid-later _ q.valid (omega arith),
              q.kept,
            )
      ]
    ]
