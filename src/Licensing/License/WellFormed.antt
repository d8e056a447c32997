-- ===== src/Licensing/License/WellFormed.antt =====
-- Well-formed licenses, and when a license is usable.
use pos_cloud.Common.{
  Option, ℕ, suc, ◌≡◌, refl, ◌≢◌, ◌⊎◌, inl, inr, ◌≤◌, ◌<◌, ◌↔◌, true, false, none, some, List, [],
  ◌∷◌, Result, ok, err, arith, subst, sym, ◌∙◌, any, Result-cases,
}
use pos_cloud.Common.Text.{Text, ◌===◌}
use pos_cloud.Kernel.{Env, World}
use pos_cloud.Licensing.Status.{
  LicenseStatus, active, expired, revoked, basic, premium, perpetual, subscription, LicenseError,
  is_license_status_transition_allowed, same_status,
}
use pos_cloud.Licensing.License.{
  License, LicenseEntitlement, ReplaceEntitlementItemInput, is_usable, change_status,
  build_entitlements, replace_entitlements, is_over,
}

-- No two entitlements have a code, and none has one that was seen before.
abbrev pub IsDistinct : List Text → List LicenseEntitlement → Type 0
IsDistinct seen [] = Unit
IsDistinct seen (e ∷ es) = (any (λ c. c === e.code) seen ≡ false) × IsDistinct (e.code ∷ seen) es

abbrev pub IsValidity : License → Type 0
IsValidity l =
    ((l.edition ≡ basic) × (l.license_model ≡ perpetual) × (l.valid_until ≡ none))
    ⊎ ((l.edition ≡ premium)
        × (l.license_model ≡ subscription)
        × ((t : ℕ) × (l.valid_until ≡ some t) × (l.valid_from < t)))

pub record IsWellFormed (l : License) : Type 0 where
  pub validity : IsValidity l
  pub capacity : 1 ≤ l.max_installations
  pub distinct : IsDistinct [] l.entitlements

same-IsValidity :
    (l l' : License)
    → l'.edition ≡ l.edition
    → l'.license_model ≡ l.license_model
    → l'.valid_from ≡ l.valid_from
    → l'.valid_until ≡ l.valid_until
    → IsValidity l
    → IsValidity l'
same-IsValidity l l' e m f u (inl (a, b, c)) = inl (e ∙ a, m ∙ b, u ∙ c)
same-IsValidity l l' e m f u (inr (a, b, (t, c, d))) = inr (e ∙ a, m ∙ b, (t, u ∙ c, rw f d))

module _ (env : Env) {Db : Type 0} where
  module _ (x : Text) (seen : List Text) (item : ReplaceEntitlementItemInput)
      (items : List ReplaceEntitlementItemInput) (w : World Db) where
    abbrev rest : Result LicenseError (List LicenseEntitlement)
    rest =
        (build_entitlements env x (item.code ∷ seen) items
          (record w { ids = suc w.ids; ticks = suc w.ticks })).0

    built_first :
        (es others : List LicenseEntitlement)
        → (build_entitlements env x seen (item ∷ items) w).0 ≡ ok es
        → rest ≡ ok others
        → (any (λ c. c === item.code) seen ≡ false)
          × (es
              ≡ record {
                id = env.next_id w.ids;
                license_id = x;
                code = item.code;
                enabled = item.enabled;
                configuration = item.configuration;
                created_at = env.clock w.ticks;
                updated_at = env.clock w.ticks;
              }
                ∷ others)
    unfolding build_entitlements
    built_first es others h r = ground arith

    built_rest :
        (es : List LicenseEntitlement) (f : LicenseError)
        → (build_entitlements env x seen (item ∷ items) w).0 ≡ ok es
        → rest ≢ err f
    unfolding build_entitlements
    built_rest es f h r = ground arith

  -- The loop writes no store.
  build_same_db :
      (x : Text) (seen : List Text) (items : List ReplaceEntitlementItemInput) (w : World Db)
      → (build_entitlements env x seen items w).1.db ≡ w.db
  unfolding build_entitlements
  build_same_db x seen [] w = refl
  build_same_db x seen (item ∷ items) w = ground (
    arith,
    build_same_db x (item.code ∷ seen) items (record w { ids = suc w.ids; ticks = suc w.ticks }),
  )

  pub replace_same_db :
      (items : List ReplaceEntitlementItemInput) (l : License) (w : World Db)
      → (replace_entitlements env items l w).1.db ≡ w.db
  unfolding replace_entitlements
  replace_same_db items l w = ground (arith, build_same_db l.id [] items w)

  build-IsDistinct :
      (x : Text) (seen : List Text) (items : List ReplaceEntitlementItemInput) (w : World Db)
      (es : List LicenseEntitlement)
      → (build_entitlements env x seen items w).0 ≡ ok es
      → IsDistinct seen es
  unfolding build_entitlements
  build-IsDistinct x seen [] w es h = let e : [] ≡ es = cc h in subst (IsDistinct seen) e tt
  build-IsDistinct x seen (item ∷ items) w es h = elim (Result-cases (rest x seen item items w)) [
    | inr (f, r) ↦ absurd (built_rest x seen item items w es f h r)
    | inl (others, r) ↦
        let (new, same) = built_first x seen item items w es others h r in
        subst (IsDistinct seen) (sym same) (
          new,
          build-IsDistinct x (item.code ∷ seen) items
              (record w { ids = suc w.ids; ticks = suc w.ticks }) others r,
        )
  ]

  module _ (items : List ReplaceEntitlementItemInput) (l l' : License) (w : World Db) where
    replaced_with :
        (es : List LicenseEntitlement)
        → (replace_entitlements env items l w).0 ≡ ok l'
        → (build_entitlements env l.id [] items w).0 ≡ ok es
        → (l'.entitlements ≡ es)
          × (l'.edition ≡ l.edition)
          × (l'.license_model ≡ l.license_model)
          × (l'.valid_from ≡ l.valid_from)
          × (l'.valid_until ≡ l.valid_until)
          × (l'.max_installations ≡ l.max_installations)
    unfolding replace_entitlements
    replaced_with es h b = ground arith

    not_replaced :
        (f : LicenseError)
        → (replace_entitlements env items l w).0 ≡ ok l'
        → (build_entitlements env l.id [] items w).0 ≢ err f
    unfolding replace_entitlements
    not_replaced f h b = ground arith

  -- Replacing the entitlements of a well-formed license leaves a well-formed one: no two
  -- entitlements have the same code.
  pub replace-IsWellFormed :
      (items : List ReplaceEntitlementItemInput) (l l' : License) (w : World Db)
      → IsWellFormed l
      → (replace_entitlements env items l w).0 ≡ ok l'
      → IsWellFormed l'
  replace-IsWellFormed items l l' w q h =
      elim (Result-cases (build_entitlements env l.id [] items w).0) [
        | inr (f, b) ↦ absurd (not_replaced items l l' w f h b)
        | inl (es, b) ↦
            let (same, e, m, f, u, n) = replaced_with items l l' w es h b in
            record {
              validity = same-IsValidity l l' e m f u q.validity;
              capacity = rw n q.capacity;
              distinct = rw same (build-IsDistinct l.id [] items w es b);
            }
      ]

-- The last date, if there is one, is not over.
abbrev pub HasNotEnded : ℕ → Option ℕ → Type 0
HasNotEnded at none = Unit
HasNotEnded at (some until) = at ≤ until

not_over_iff : (at : ℕ) (o : Option ℕ) → (is_over at o ≡ false) ↔ HasNotEnded at o
not_over_iff at none = (λ h. tt, λ h. refl)
not_over_iff at (some until) = (λ h. ground arith, λ h. ground arith)

usable_iff :
    (at : ℕ) (l : License)
    → (is_usable at l ≡ true)
      ↔ ((l.status ≡ active) × (l.valid_from ≤ at) × (is_over at l.valid_until ≡ false))
unfolding is_usable same_status
usable_iff at l = (λ h. ground arith, λ h. ground arith)

-- A license is usable at a time exactly if it is ACTIVE, its first date is not after the time, and
-- it has no last date or one that is not before the time.
pub is_usable_iff :
    (at : ℕ) (l : License)
    → (is_usable at l ≡ true)
      ↔ ((l.status ≡ active) × (l.valid_from ≤ at) × HasNotEnded at l.valid_until)
is_usable_iff at l = (
  λ h.
      let (in_use, begun, open_end) = (usable_iff at l).0 h in
      (in_use, begun, (not_over_iff at l.valid_until).0 open_end),
  λ (in_use, begun, open_end).
      (usable_iff at l).1 (in_use, begun, (not_over_iff at l.valid_until).1 open_end),
)

-- A change that succeeds sets status and time alone, and leaves neither EXPIRED nor REVOKED nor the
-- new status itself.
pub change_sound :
    (next : LicenseStatus) (now : ℕ) (l l' : License)
    → change_status next now l ≡ ok l'
    → (l' ≡ record l { status = next; updated_at = now })
      × (l.status ≢ expired)
      × (l.status ≢ revoked)
      × (l.status ≢ next)
unfolding change_status is_license_status_transition_allowed same_status
change_sound next now l l' h = ground arith

pub change-IsWellFormed :
    (next : LicenseStatus) (now : ℕ) (l l' : License)
    → IsWellFormed l
    → change_status next now l ≡ ok l'
    → IsWellFormed l' × (l'.id ≡ l.id)
change-IsWellFormed next now l l' q h =
    let (same, a, b, c) = change_sound next now l l' h in
    subst (λ y. IsWellFormed y × (y.id ≡ l.id)) (sym same)
      (record { validity = q.validity; capacity = q.capacity; distinct = q.distinct }, refl)
