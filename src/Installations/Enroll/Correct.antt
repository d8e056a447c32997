-- ===== src/Installations/Enroll/Correct.antt =====
-- What an enrollment has done, on every path.
use pos_cloud.Common.{◌∙◌, ℕ, ◌≡◌, refl, ◌≢◌, ◌⊎◌, true, some, arith, ok}
use pos_cloud.Common.Text.{Text}
use pos_cloud.Common.JsMap.{set, get, count}
use pos_cloud.Common.JsMap.Laws.{get-set_self}
use pos_cloud.Common.JsMap.Slots.{IsInjective}
use pos_cloud.Kernel.{World}
use pos_cloud.Installations.Status.{
  pending, active, initial, recovery, is_installation_eligible_for_enrollment,
}
use pos_cloud.Installations.Installation.{Installation}
use pos_cloud.Installations.Enrollment.{InstallationEnrollment, mark_consumed}
use pos_cloud.Installations.Credential.{InstallationCredential}
use pos_cloud.Installations.Token.{format_opaque_token}
use pos_cloud.Installations.Store.{Db, Ports, is_active, is_active_for}
use pos_cloud.Installations.Invariant.{HasLeftPending}
use pos_cloud.Installations.Enroll.{
  EnrollmentOutcome, consume, activate_if_initial, revoke_active_credential, issue_credential,
  consume_enrollment,
}
use pos_cloud.Installations.Enrollment.{is_consumable}
use pos_cloud.Installations.History.{Keeps, Keeps-trans}
use pos_cloud.Installations.Enroll.Steps.{
  consume-Keeps, Valid, consume-Valid, activate_if_initial-IsActivated,
  revoke_active_credential-IsCleared, issue_credential-IsCredentialed,
}

module _ (ports : Ports) where
  -- The stores after an enrollment of installation `i` with code `e`, and the token returned.
  pub record IsEnrolled (i : Installation) (e : InstallationEnrollment) (w' : World Db)
      (token : Text) : Type 0 where
    pub valid : Valid ports w'
    pub at : ℕ
    pub consumed : get e.id w'.db.enrollments ≡ some (record e { consumed_at = some at })
    pub i' : Installation
    pub installation : get i.id w'.db.installations ≡ some i'
    pub activated_at : ℕ
    pub activation :
        ((e.purpose ≡ initial)
          × (i' ≡ record i {
            status = active;
            registered_at = some activated_at;
            updated_at = activated_at;
          }))
        ⊎ ((e.purpose ≡ recovery) × (i' ≡ i))
    pub credential : InstallationCredential
    pub secret : Text
    pub stored : get credential.id w'.db.credentials ≡ some credential
    pub owner : credential.installation_id ≡ i.id
    pub hashed : credential.secret_hash ≡ ports.env.sha256_hex secret
    pub printed : token ≡ format_opaque_token credential.id secret
    pub drawn_id : (n : ℕ) × (credential.id ≡ ports.env.next_id n)
    pub drawn_secret : (n : ℕ) × (secret ≡ ports.env.next_secret n)
    pub alive : is_active credential ≡ true
    pub one_active : count (is_active_for i.id) w'.db.credentials ≡ 1

  consume_enrollment-equation :
      (x : Text) (i i' : Installation) (e : InstallationEnrollment) (token : Text)
      (w w₂ w₃ w₄ : World Db)
      → activate_if_initial ports i e (consume ports e w).1 ≡ (ok i', w₂)
      → revoke_active_credential ports x w₂ ≡ (ok tt, w₃)
      → issue_credential ports x w₃ ≡ (ok token, w₄)
      → consume_enrollment ports x i e w ≡ (
        ok (record {
          installation_id = x;
          credential = token;
          purpose = e.purpose;
          resulting_status = i'.status;
        }),
        w₄,
      )
  unfolding consume_enrollment consume
  consume_enrollment-equation x i i' e token w w₂ w₃ w₄ a b c = ground arith

  owner_left :
      (x : Text) (i' : Installation) (w₂ w₃ : World Db)
      → get x w₂.db.installations ≡ some i'
      → i'.status ≢ pending
      → w₃.db.installations ≡ w₂.db.installations
      → HasLeftPending (get x w₃.db.installations)
  owner_left x i' w₂ w₃ stored left same = rw same (rw stored left)

  -- All writes succeed once the checks have passed.
  pub consume_enrollment-IsEnrolled :
      (i : Installation) (e : InstallationEnrollment) (w : World Db)
      → IsInjective ports.env.next_id
      → Valid ports w
      → get i.id w.db.installations ≡ some i
      → get e.id w.db.enrollments ≡ some e
      → is_installation_eligible_for_enrollment i.status e.purpose ≡ true
      → (t : ℕ) → is_consumable e t ≡ true
      → (o : EnrollmentOutcome) × (w' : World Db) × (consume_enrollment ports i.id i e w
          ≡ (ok o, w'))
        × (o.installation_id ≡ i.id)
        × ((q : IsEnrolled i e w' o.credential) × (w'.db.installations
              ≡ set i.id q.i' w.db.installations))
        × Keeps w.db w'.db
  unfolding consume mark_consumed
  consume_enrollment-IsEnrolled i e w inj h found_i found_e eligible t good =
      let v₁ = consume-Valid ports e w h found_e in
      let (i', w₂, act, a) =
        activate_if_initial-IsActivated ports i e (consume ports e w).1 v₁ found_i eligible in
      let (w₃, rev, r) = revoke_active_credential-IsCleared ports i.id w₂ a.valid in
      let (token, w₄, iss, c) =
        issue_credential-IsCredentialed ports i.id w₃ inj r.valid r.free
          (owner_left i.id i' w₂ w₃ a.stored a.left r.same_installations) in
      (
        _,
        w₄,
        consume_enrollment-equation i.id i i' e token w w₂ w₃ w₄ act rev iss,
        refl,
        (
          record {
            valid = c.valid;
            at = ports.env.clock w.ticks;
            consumed =
                rw (c.same_enrollments, r.same_enrollments, a.same_enrollments)
                  (get-set_self e.id _ w.db.enrollments);
            i' = i';
            installation = rw (c.same_installations, r.same_installations) a.stored;
            activated_at = a.at;
            activation = a.effect;
            credential = c.credential;
            secret = c.secret;
            stored = c.stored;
            owner = c.owner;
            hashed = c.hashed;
            printed = c.printed;
            drawn_id = c.drawn_id;
            drawn_secret = c.drawn_secret;
            alive = c.alive;
            one_active = c.one_active;
          },
          c.same_installations ∙ r.same_installations ∙ a.whole,
        ),
        Keeps-trans w.db (consume ports e w).1.db w₄.db (consume-Keeps ports e w t found_e good) (
            Keeps-trans (consume ports e w).1.db w₂.db w₄.db a.kept
              (Keeps-trans w₂.db w₃.db w₄.db r.kept c.kept)),
      )
