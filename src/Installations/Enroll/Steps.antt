-- ===== src/Installations/Enroll/Steps.antt =====
-- The writes of an enrollment, one at a time.
use pos_cloud.Common.{
  ◌∙◌, sym, subst, ap, ℕ, suc, ◌≡◌, refl, ◌≢◌, ◌⊎◌, inl, inr, true, false, none, some, arith,
  Option-cases, ok,
}
use pos_cloud.Common.Text.{Text}
use pos_cloud.Common.JsMap.{get, set, find, count}
use pos_cloud.Common.JsMap.Laws.{set-get, get-set_self, get-find, count-find-none, find_sound}
use pos_cloud.Common.JsMap.Slots.{found_live, IsInjective, retire_clears, insert_occupies}
use pos_cloud.Kernel.{World}
use pos_cloud.Installations.Status.{
  pending, active, initial, recovery, is_installation_eligible_for_enrollment, purpose-cases,
}
use pos_cloud.Installations.Installation
use pos_cloud.Installations.Installation.{Installation}
use pos_cloud.Installations.Enrollment.{InstallationEnrollment, mark_consumed}
use pos_cloud.Installations.Credential
use pos_cloud.Installations.Credential.{InstallationCredential}
use pos_cloud.Installations.Token.{format_opaque_token}
use pos_cloud.Installations.Store.{Db, Ports, is_open, is_active, is_active_for}
use pos_cloud.Installations.Enrollment.{is_consumable}
use pos_cloud.Installations.Status.{same_status}
use pos_cloud.Installations.History.{
  Keeps, Keeps-same, Keeps-enrollment, Keeps-credential, Keeps-installation, is_ended, is_closed,
  is_closed_of_open,
}
use pos_cloud.Installations.Invariant.{
  IsValid, close_enrollment-IsValid, update_installation-IsValid, revoke_credential-IsValid,
  add_credential-IsValid, HasLeftPending,
}
use pos_cloud.Installations.Enroll.{
  consume, activate_if_initial, revoke_credential, revoke_active_credential, issue_credential,
}

is_open-mark_consumed : (t : ℕ) (e : InstallationEnrollment) → is_open (mark_consumed t e) ≡ false
unfolding mark_consumed
is_open-mark_consumed t e = refl

pub is_active-revoke :
    (t : ℕ) (c : InstallationCredential) → is_active (Credential.revoke t c) ≡ false
unfolding Credential.revoke
is_active-revoke t c = ground arith

pub revoke-owner :
    (t : ℕ) (c : InstallationCredential)
    → ((Credential.revoke t c).id ≡ c.id)
      × ((Credential.revoke t c).installation_id ≡ c.installation_id)
unfolding Credential.revoke
revoke-owner t c = ground arith

is_open_of_consumable :
    (e : InstallationEnrollment) (t : ℕ) → is_consumable e t ≡ true → is_open e ≡ true
unfolding is_consumable
is_open_of_consumable e t h = ground arith

unrevoked_of_active :
    (c : InstallationCredential) → is_active c ≡ true → Credential.is_revoked c ≡ false
unrevoked_of_active c h = ground arith

some_injective : {A : Type 0} (a b : A) → some a ≡ some b → a ≡ b
some_injective a b h = cc h

module _ (ports : Ports) where
  abbrev pub Valid : World Db → Type 0
  Valid w = IsValid ports.env.next_id w.ids w.db

  pub consume-Valid :
      (e : InstallationEnrollment) (w : World Db)
      → Valid w
      → get e.id w.db.enrollments ≡ some e
      → Valid (consume ports e w).1
  unfolding consume mark_consumed
  consume-Valid e w h found =
      close_enrollment-IsValid _ (mark_consumed (ports.env.clock w.ticks) e) e h found refl

  pub consume-Keeps :
      (e : InstallationEnrollment) (w : World Db) (t : ℕ)
      → get e.id w.db.enrollments ≡ some e
      → is_consumable e t ≡ true
      → Keeps w.db (consume ports e w).1.db
  unfolding consume mark_consumed
  consume-Keeps e w t found good =
      Keeps-enrollment w.db e.id (mark_consumed (ports.env.clock w.ticks) e) λ u there.
        subst (λ y. is_closed y ≡ false) (some_injective e u (sym found ∙ there))
          (is_closed_of_open e (is_open_of_consumable e t good))

  -- The installation as the activation leaves it.
  pub record IsActivated (i : Installation) (e : InstallationEnrollment) (w w' : World Db)
      (i' : Installation) : Type 0 where
    pub valid : Valid w'
    pub stored : get i.id w'.db.installations ≡ some i'
    pub whole : w'.db.installations ≡ set i.id i' w.db.installations
    pub left : i'.status ≢ pending
    pub at : ℕ
    pub effect :
        ((e.purpose ≡ initial)
          × (i' ≡ record i { status = active; registered_at = some at; updated_at = at }))
        ⊎ ((e.purpose ≡ recovery) × (i' ≡ i))
    pub same_enrollments : w'.db.enrollments ≡ w.db.enrollments
    pub same_credentials : w'.db.credentials ≡ w.db.credentials
    pub same_ids : w'.ids ≡ w.ids
    pub kept : Keeps w.db w'.db

  module _ (i : Installation) (e : InstallationEnrollment) (w : World Db) where
    abbrev t : ℕ
    t = ports.env.clock w.ticks

    abbrev activated : Installation
    activated = record i { status = active; registered_at = some t; updated_at = t }

    initial_equation :
        e.purpose ≡ initial
        → is_installation_eligible_for_enrollment i.status e.purpose ≡ true
        → activate_if_initial ports i e w ≡ (
          ok activated,
          record w {
            ticks = suc w.ticks;
            db = record (w.db) { installations = set i.id activated w.db.installations };
          },
        )
    unfolding activate_if_initial Installation.activate is_installation_eligible_for_enrollment
    initial_equation p eligible = ground arith

    recovery_equation : e.purpose ≡ recovery → activate_if_initial ports i e w ≡ (ok i, w)
    unfolding activate_if_initial
    recovery_equation p = ground arith

    recovery_left :
        e.purpose ≡ recovery
        → is_installation_eligible_for_enrollment i.status e.purpose ≡ true
        → i.status ≢ pending
    unfolding is_installation_eligible_for_enrollment
    recovery_left p eligible = ground arith

    eligible_open :
        e.purpose ≡ initial
        → is_installation_eligible_for_enrollment i.status e.purpose ≡ true
        → is_ended i ≡ false
    unfolding is_installation_eligible_for_enrollment same_status
    eligible_open p eligible = ground arith

    -- An eligible installation is activated by an initial enrollment and left as it is by a
    -- recovery; either way it is not pending afterwards.
    pub activate_if_initial-IsActivated :
        Valid w
        → get i.id w.db.installations ≡ some i
        → is_installation_eligible_for_enrollment i.status e.purpose ≡ true
        → (i' : Installation) × (w' : World Db) × (activate_if_initial ports i e w ≡ (ok i', w'))
          × IsActivated i e w w' i'
    activate_if_initial-IsActivated h found eligible = elim (purpose-cases e.purpose) [
      | inl p ↦ (
        activated,
        _,
        initial_equation p eligible,
        record {
          valid = update_installation-IsValid _ activated i h found refl (λ q. cc) (ground arith);
          stored = get-set_self i.id activated w.db.installations;
          whole = refl;
          left = λ q. cc;
          at = t;
          effect = inl (p, refl);
          kept = Keeps-installation w.db i.id activated λ u there.
              subst (λ y. is_ended y ≡ false) (some_injective i u (sym found ∙ there))
                (eligible_open p eligible);
          same_enrollments = refl;
          same_credentials = refl;
          same_ids = refl;
        },
      )
      | inr p ↦ (
        i,
        w,
        recovery_equation p,
        record {
          valid = h;
          stored = found;
          whole = sym (set-get i.id i w.db.installations found);
          left = recovery_left p eligible;
          at = t;
          effect = inr (p, refl);
          kept = Keeps-same w.db w.db refl refl refl;
          same_enrollments = refl;
          same_credentials = refl;
          same_ids = refl;
        },
      )
    ]

  -- What the revocation of the active credential leaves.
  pub record IsCleared (x : Text) (w w' : World Db) : Type 0 where
    pub valid : Valid w'
    pub free : count (is_active_for x) w'.db.credentials ≡ 0
    pub same_ids : w'.ids ≡ w.ids
    pub kept : Keeps w.db w'.db
    pub same_installations : w'.db.installations ≡ w.db.installations
    pub same_enrollments : w'.db.enrollments ≡ w.db.enrollments

  module _ (x : Text) (w : World Db) where
    revoked_equation :
        (c : InstallationCredential)
        → find (is_active_for x) w.db.credentials ≡ some c
        → is_active c ≡ true
        → revoke_active_credential ports x w ≡ (
          ok tt,
          record w {
            ticks = suc w.ticks;
            db = record (w.db) {
              credentials =
                  set
                    (Credential.revoke (ports.env.clock w.ticks) c).id
                    (Credential.revoke (ports.env.clock w.ticks) c)
                    w.db.credentials;
            };
          },
        )
    unfolding revoke_active_credential revoke_credential
    revoked_equation c found alive = ground arith

    nothing_equation :
        find (is_active_for x) w.db.credentials ≡ none
        → revoke_active_credential ports x w ≡ (ok tt, w)
    unfolding revoke_active_credential
    nothing_equation missing = ground arith

    -- The installation has no active credential afterwards.
    pub revoke_active_credential-IsCleared :
        Valid w
        → (w' : World Db) × (revoke_active_credential ports x w ≡ (ok tt, w')) × IsCleared x w w'
    revoke_active_credential-IsCleared h =
        elim (Option-cases (find (is_active_for x) w.db.credentials)) [
          | inl missing ↦ (
            w,
            nothing_equation missing,
            record {
              valid = h;
              free = count-find-none (is_active_for x) w.db.credentials missing;
              kept = Keeps-same w.db w.db refl refl refl;
              same_ids = refl;
              same_installations = refl;
              same_enrollments = refl;
            },
          )
          | inr (c, found) ↦
              let c' : InstallationCredential = Credential.revoke (ports.env.clock w.ticks) c in
              let (same_id, same_owner) = revoke-owner (ports.env.clock w.ticks) c in
              let dead = is_active-revoke (ports.env.clock w.ticks) c in
              let alive : is_active c ≡ true =
                ground (arith, find_sound (is_active_for x) w.db.credentials c found) in
              let stored : get c'.id w.db.credentials ≡ some c =
                rw same_id (get-find _ _ _ c h.credentials.keyed found) in
              (
                _,
                revoked_equation c found alive,
                record {
                  valid = revoke_credential-IsValid _ c' c h stored same_owner dead;
                  free = retire_clears _ _ _ _ x c' c h.credentials found same_id dead;
                  kept = Keeps-credential w.db c'.id c' λ u there. unrevoked_of_active u (
                      found_live _ _ _ x w.db.credentials c h.credentials.keyed found u
                        (ap (λ k. get k w.db.credentials) (sym same_id) ∙ there));
                  same_ids = refl;
                  same_installations = refl;
                  same_enrollments = refl;
                },
              )
        ]

  -- The credential that a call stores and the token that it returns.
  pub record IsCredentialed (x : Text) (w w' : World Db) (token : Text) : Type 0 where
    pub valid : Valid w'
    pub credential : InstallationCredential
    pub secret : Text
    pub stored : get credential.id w'.db.credentials ≡ some credential
    pub owner : credential.installation_id ≡ x
    pub hashed : credential.secret_hash ≡ ports.env.sha256_hex secret
    pub printed : token ≡ format_opaque_token credential.id secret
    pub drawn_id : (n : ℕ) × (credential.id ≡ ports.env.next_id n)
    pub drawn_secret : (n : ℕ) × (secret ≡ ports.env.next_secret n)
    pub alive : is_active credential ≡ true
    pub one_active : count (is_active_for x) w'.db.credentials ≡ 1
    pub kept : Keeps w.db w'.db
    pub same_installations : w'.db.installations ≡ w.db.installations
    pub same_enrollments : w'.db.enrollments ≡ w.db.enrollments

  pub issue_credential-IsCredentialed :
      (x : Text) (w : World Db)
      → IsInjective ports.env.next_id
      → Valid w
      → count (is_active_for x) w.db.credentials ≡ 0
      → HasLeftPending (get x w.db.installations)
      → (token : Text) × (w' : World Db) × (issue_credential ports x w ≡ (ok token, w'))
        × IsCredentialed x w w' token
  unfolding issue_credential Credential.issue
  issue_credential-IsCredentialed x w inj h free owned =
      let c : InstallationCredential =
        Credential.issue (ports.env.next_id w.ids) x
          (ports.env.sha256_hex (ports.env.next_secret w.secrets)) (ports.env.clock w.ticks) in
      (
        _,
        _,
        refl,
        record {
          valid = add_credential-IsValid _ c inj h refl free owned;
          credential = c;
          secret = ports.env.next_secret w.secrets;
          stored = get-set_self c.id c w.db.credentials;
          owner = refl;
          hashed = refl;
          printed = refl;
          drawn_id = (w.ids, refl);
          drawn_secret = (w.secrets, refl);
          alive = refl;
          one_active = insert_occupies _ _ _ _ c h.credentials refl refl free;
          kept =
              Keeps-credential w.db c.id c
                λ u there. absurd (cc (there, h.credentials.fresh w.ids (omega arith)));
          same_installations = refl;
          same_enrollments = refl;
        },
      )
