-- ===== src/Installations/Invariant.antt =====
-- The invariant of the installation stores under each kind of write.
use pos_cloud.Common.{
  ℕ, suc, ◌≤◌, ◌≡◌, ◌≢◌, ◌⊎◌, inl, inr, false, Option, none, some, arith, ap, subst, Bool-cases,
}
use pos_cloud.Common.Text.{Text, ◌===◌, ===_iff}
use pos_cloud.Common.JsMap.{JsMap, get, set, find, count}
use pos_cloud.Common.JsMap.Laws.{get-set, IsKeyed, set-IsKeyed, count-set, count-find-none}
use pos_cloud.Common.JsMap.Slots.{
  IsInjective, IsSlots, IsSlots-later, retire-IsSlots, insert-IsSlots,
}
use pos_cloud.Installations.Status.{pending, active, suspended}
use pos_cloud.Installations.Installation.{Installation}
use pos_cloud.Installations.Enrollment.{InstallationEnrollment}
use pos_cloud.Installations.Credential.{InstallationCredential}
use pos_cloud.Installations.Store.{Db, is_open, is_active, is_open_for, is_active_for, has_code}

-- The owner of a credential is an installation that has been activated.
abbrev pub HasLeftPending : Option Installation → Type 0
HasLeftPending none = ⊥
HasLeftPending (some i) = i.status ≢ pending

-- `registeredAt` is stamped by the activation and by nothing else.
abbrev pub IsStamped : Installation → Type 0
IsStamped i =
    (i.status ≡ pending → i.registered_at ≡ none)
    × ((i.status ≡ active) ⊎ (i.status ≡ suspended) → i.registered_at ≢ none)

module _ (next_id : ℕ → Text) where
  -- `ids` is how many ids have been given out.
  pub record IsValid (ids : ℕ) (db : Db) : Type 0 where
    pub installations_keyed : IsKeyed (λ i. i.id) db.installations
    pub installations_fresh : (n : ℕ) → ids ≤ n → get (next_id n) db.installations ≡ none
    pub unique_codes : (code : Text) → count (has_code code) db.installations ≤ 1
    pub stamped : (k : Text) (i : Installation) → get k db.installations ≡ some i → IsStamped i
    pub enrollments :
        IsSlots (λ e. e.id) (λ e. e.installation_id) is_open next_id ids db.enrollments
    pub credentials :
        IsSlots (λ c. c.id) (λ c. c.installation_id) is_active next_id ids db.credentials
    pub credentialed :
        (k : Text) (c : InstallationCredential)
        → get k db.credentials ≡ some c
        → HasLeftPending (get c.installation_id db.installations)

  pub IsValid-later : {ids later : ℕ} {db : Db} → IsValid ids db → ids ≤ later → IsValid later db
  IsValid-later h le = record {
    installations_keyed = h.installations_keyed;
    installations_fresh = λ n k. h.installations_fresh n (omega arith);
    unique_codes = h.unique_codes;
    stamped = h.stamped;
    enrollments = IsSlots-later _ _ _ next_id h.enrollments le;
    credentials = IsSlots-later _ _ _ next_id h.credentials le;
    credentialed = h.credentialed;
  }

  -- An enrollment that is consumed or revoked.
  pub close_enrollment-IsValid :
      {ids : ℕ} {db : Db} (e' e : InstallationEnrollment)
      → IsValid ids db
      → get e'.id db.enrollments ≡ some e
      → is_open e' ≡ false
      → IsValid ids (record db { enrollments = set e'.id e' db.enrollments })
  close_enrollment-IsValid e' e h found closed = record {
    installations_keyed = h.installations_keyed;
    installations_fresh = h.installations_fresh;
    unique_codes = h.unique_codes;
    stamped = h.stamped;
    enrollments = retire-IsSlots _ _ _ next_id e' e h.enrollments found closed;
    credentials = h.credentials;
    credentialed = h.credentialed;
  }

  -- A new open enrollment of an installation that has none.
  pub add_enrollment-IsValid :
      {ids : ℕ} {db : Db} (e : InstallationEnrollment)
      → IsInjective next_id
      → IsValid ids db
      → e.id ≡ next_id ids
      → count (is_open_for e.installation_id) db.enrollments ≡ 0
      → IsValid (suc ids) (record db { enrollments = set e.id e db.enrollments })
  add_enrollment-IsValid e inj h new free = record {
    installations_keyed = h.installations_keyed;
    installations_fresh = λ n k. h.installations_fresh n (omega arith);
    unique_codes = h.unique_codes;
    stamped = h.stamped;
    enrollments = insert-IsSlots _ _ _ next_id e inj h.enrollments new free;
    credentials = IsSlots-later _ _ _ next_id h.credentials (omega arith);
    credentialed = h.credentialed;
  }

  credentialed-set :
      (db : Db) (c : InstallationCredential)
      → ((k : Text) (d : InstallationCredential)
          → get k db.credentials ≡ some d
          → HasLeftPending (get d.installation_id db.installations))
      → HasLeftPending (get c.installation_id db.installations)
      → (k : Text) (d : InstallationCredential) → get k (set c.id c db.credentials) ≡ some d
      → HasLeftPending (get d.installation_id db.installations)
  credentialed-set db c old new k d found = elim (Bool-cases (k === c.id)) [
    | inl same ↦
        let e : c ≡ d = ground (arith, get-set k c.id c db.credentials) in
        subst
          (λ (x : InstallationCredential). HasLeftPending (get x.installation_id db.installations))
          e new
    | inr other ↦ old k d (ground (arith, get-set k c.id c db.credentials))
  ]

  -- A credential that is revoked.
  pub revoke_credential-IsValid :
      {ids : ℕ} {db : Db} (c' c : InstallationCredential)
      → IsValid ids db
      → get c'.id db.credentials ≡ some c
      → c'.installation_id ≡ c.installation_id
      → is_active c' ≡ false
      → IsValid ids (record db { credentials = set c'.id c' db.credentials })
  revoke_credential-IsValid {db} c' c h found same revoked = record {
    installations_keyed = h.installations_keyed;
    installations_fresh = h.installations_fresh;
    unique_codes = h.unique_codes;
    stamped = h.stamped;
    enrollments = h.enrollments;
    credentials = retire-IsSlots _ _ _ next_id c' c h.credentials found revoked;
    credentialed = credentialed-set db c' h.credentialed (rw same (h.credentialed c'.id c found));
  }

  -- A new credential of an activated installation that has no active one.
  pub add_credential-IsValid :
      {ids : ℕ} {db : Db} (c : InstallationCredential)
      → IsInjective next_id
      → IsValid ids db
      → c.id ≡ next_id ids
      → count (is_active_for c.installation_id) db.credentials ≡ 0
      → HasLeftPending (get c.installation_id db.installations)
      → IsValid (suc ids) (record db { credentials = set c.id c db.credentials })
  add_credential-IsValid {db} c inj h new free owned = record {
    installations_keyed = h.installations_keyed;
    installations_fresh = λ n k. h.installations_fresh n (omega arith);
    unique_codes = h.unique_codes;
    stamped = h.stamped;
    enrollments = IsSlots-later _ _ _ next_id h.enrollments (omega arith);
    credentials = insert-IsSlots _ _ _ next_id c inj h.credentials new free;
    credentialed = credentialed-set db c h.credentialed owned;
  }

  -- The owners of credentials stay activated if the written installation is, or owns none.
  owned-set :
      (i : Installation) (m : JsMap Installation) (owner : Text)
      → HasLeftPending (get owner m)
      → (i.status ≢ pending) ⊎ (get i.id m ≡ none)
      → HasLeftPending (get owner (set i.id i m))
  owned-set i m owner old ok = elim (Bool-cases (owner === i.id)) [
    | inl same ↦
        let e : owner ≡ i.id = (===_iff owner i.id).0 same in
        elim ok [
          | inl left ↦ rw (get-set owner i.id i m) (rw same left)
          | inr absent ↦ absurd (rw (e, absent) at old)
        ]
    | inr other ↦ rw (get-set owner i.id i m) (rw other old)
  ]

  IsStamped-set :
      (i : Installation) (m : JsMap Installation)
      → ((k : Text) (j : Installation) → get k m ≡ some j → IsStamped j)
      → IsStamped i
      → (k : Text) (j : Installation) → get k (set i.id i m) ≡ some j
      → IsStamped j
  IsStamped-set i m old new k j found = elim (Bool-cases (k === i.id)) [
    | inl same ↦ let e : i ≡ j = ground (arith, get-set k i.id i m) in subst IsStamped e new
    | inr other ↦ old k j (ground (arith, get-set k i.id i m))
  ]

  -- An installation whose status changes.
  pub update_installation-IsValid :
      {ids : ℕ} {db : Db} (i' i : Installation)
      → IsValid ids db
      → get i'.id db.installations ≡ some i
      → i'.installation_code ≡ i.installation_code
      → i'.status ≢ pending
      → IsStamped i'
      → IsValid ids (record db { installations = set i'.id i' db.installations })
  update_installation-IsValid {db} i' i h found same left stamp = record {
    installations_keyed = set-IsKeyed (λ j. j.id) i' db.installations h.installations_keyed;
    installations_fresh = λ n le. ground (
      arith,
      get-set (next_id n) i'.id i' db.installations,
      ===_iff (next_id n) i'.id,
      h.installations_fresh n le,
      ap (λ j. get j db.installations),
    );
    unique_codes = λ code.
        ground (arith, count-set (has_code code) i'.id i' db.installations, h.unique_codes code);
    stamped = IsStamped-set i' db.installations h.stamped stamp;
    enrollments = h.enrollments;
    credentials = h.credentials;
    credentialed = λ k c found_c.
        owned-set i' db.installations c.installation_id (h.credentialed k c found_c) (inl left);
  }

  unique-insert :
      (i : Installation) (m : JsMap Installation) (code : Text)
      → count (has_code code) m ≤ 1
      → find (has_code i.installation_code) m ≡ none
      → count (has_code code) (set i.id i m) ≤ 1
  unique-insert i m code one unused = elim (Bool-cases (i.installation_code === code)) [
    | inl same ↦
        let e : i.installation_code ≡ code = (===_iff i.installation_code code).0 same in
        let none_yet : count (has_code code) m ≡ 0 =
          subst (λ c. count (has_code c) m ≡ 0) e
            (count-find-none (has_code i.installation_code) m unused) in
        ground (arith, count-set (has_code code) i.id i m)
    | inr other ↦ ground (arith, count-set (has_code code) i.id i m)
  ]

  -- A new installation, which is pending.
  pub add_installation-IsValid :
      {ids : ℕ} {db : Db} (i : Installation)
      → IsInjective next_id
      → IsValid ids db
      → i.id ≡ next_id ids
      → find (has_code i.installation_code) db.installations ≡ none
      → IsStamped i
      → IsValid (suc ids) (record db { installations = set i.id i db.installations })
  add_installation-IsValid {ids} {db} i inj h new unused stamp = record {
    installations_keyed = set-IsKeyed (λ j. j.id) i db.installations h.installations_keyed;
    installations_fresh = λ n le. ground (
      arith,
      get-set (next_id n) i.id i db.installations,
      ===_iff (next_id n) i.id,
      h.installations_fresh n (omega arith),
      inj n ids,
    );
    unique_codes = λ code. unique-insert i db.installations code (h.unique_codes code) unused;
    stamped = IsStamped-set i db.installations h.stamped stamp;
    enrollments = IsSlots-later _ _ _ next_id h.enrollments (omega arith);
    credentials = IsSlots-later _ _ _ next_id h.credentials (omega arith);
    credentialed = λ k c found_c.
        owned-set i db.installations c.installation_id (h.credentialed k c found_c)
          (inr (rw new (h.installations_fresh ids (omega arith))));
  }
