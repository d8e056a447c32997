-- ===== src/Licensing/UseCases/Terms.antt =====
-- What a call leaves of a license that is stored: its terms, and a final status.
use pos_cloud.Common.{
  suc, ◌≤◌, ◌≡◌, refl, ◌∙◌, ◌⊎◌, inl, inr, some, List, [], ◌∷◌, ok, arith, ap, sym, Result-cases,
  Bool-cases,
}
use pos_cloud.Common.Text.{Text, ◌===◌, ===_iff}
use pos_cloud.Common.JsMap.{JsMap, get, set}
use pos_cloud.Common.JsMap.Laws.{get-set}
use pos_cloud.Kernel.{Env, World}
use pos_cloud.Licensing.Status.{expired, revoked}
use pos_cloud.Licensing.License.{
  License, ReplaceEntitlementItemInput, build_entitlements, replace_entitlements, add_entitlements,
}

-- The later license has the id, the customer, the number and the capacity of the earlier one, and
-- its status if that was EXPIRED or REVOKED.
pub record HasTerms (l l' : License) : Type 0 where
  pub id : l'.id ≡ l.id
  pub customer : l'.customer_id ≡ l.customer_id
  pub number : l'.license_number ≡ l.license_number
  pub capacity : l'.max_installations ≡ l.max_installations
  pub final : (l.status ≡ expired) ⊎ (l.status ≡ revoked) → l'.status ≡ l.status

pub HasTerms-same : (l : License) → HasTerms l l
HasTerms-same l = record {
  id = refl;
  customer = refl;
  number = refl;
  capacity = refl;
  final = λ f. refl;
}

pub HasTerms-trans : (a b c : License) → HasTerms a b → HasTerms b c → HasTerms a c
HasTerms-trans a b c f g = record {
  id = g.id ∙ f.id;
  customer = g.customer ∙ f.customer;
  number = g.number ∙ f.number;
  capacity = g.capacity ∙ f.capacity;
  final = λ h.
      g.final (elim h [ inl e ↦ inl (f.final (inl e) ∙ e) | inr r ↦ inr (f.final (inr r) ∙ r) ])
      ∙ f.final h;
}

-- Every stored license is still stored, with its terms.
abbrev pub KeepsTerms : JsMap License → JsMap License → Type 0
KeepsTerms m m' =
    (k : Text) (l : License)
    → get k m ≡ some l
    → (l' : License) × (get k m' ≡ some l') × HasTerms l l'

pub KeepsTerms-same : (m m' : JsMap License) → m' ≡ m → KeepsTerms m m'
KeepsTerms-same m m' same k l found = (l, ap (get k) same ∙ found, HasTerms-same l)

pub KeepsTerms-trans : (a b c : JsMap License) → KeepsTerms a b → KeepsTerms b c → KeepsTerms a c
KeepsTerms-trans a b c f g k l found =
    let (l', found', t) = f k l found in
    let (l'', found'', t') = g k l' found' in (l'', found'', HasTerms-trans l l' l'' t t')

pub KeepsTerms-set :
    (l' : License) (m : JsMap License) (j : Text)
    → ((l : License) → get j m ≡ some l → HasTerms l l')
    → KeepsTerms m (set j l' m)
KeepsTerms-set l' m j terms k l found = elim (Bool-cases (k === j)) [
  | inl same ↦ (
    l',
    rw (get-set k j l' m, same) refl,
    terms l (ap (λ i. get i m) (sym ((===_iff k j).0 same)) ∙ found),
  )
  | inr other ↦ (l, rw (get-set k j l' m, other) found, HasTerms-same l)
]

module _ (env : Env) {Db : Type 0} where
  -- The loop gives out ids and takes none back.
  build_ids :
      (x : Text) (seen : List Text) (items : List ReplaceEntitlementItemInput) (w : World Db)
      → w.ids ≤ (build_entitlements env x seen items w).1.ids
  unfolding build_entitlements
  build_ids x seen [] w = omega arith
  build_ids x seen (item ∷ items) w = ground (
    arith,
    build_ids x (item.code ∷ seen) items (record w { ids = suc w.ids; ticks = suc w.ticks }),
  )

  pub replace_ids :
      (items : List ReplaceEntitlementItemInput) (l : License) (w : World Db)
      → w.ids ≤ (replace_entitlements env items l w).1.ids
  unfolding replace_entitlements
  replace_ids items l w = ground (arith, build_ids l.id [] items w)

  pub replace-HasTerms :
      (items : List ReplaceEntitlementItemInput) (l l' : License) (w : World Db)
      → (replace_entitlements env items l w).0 ≡ ok l'
      → HasTerms l l'
  unfolding replace_entitlements
  replace-HasTerms items l l' w h = elim (Result-cases (build_entitlements env l.id [] items w).0) [
    | inl (es, b) ↦ ground arith
    | inr (f, b) ↦ absurd (ground arith)
  ]

  pub add_ids :
      (items : List ReplaceEntitlementItemInput) (l : License) (w : World Db)
      → w.ids ≤ (add_entitlements env items l w).1.ids
  unfolding add_entitlements
  add_ids [] l w = omega arith
  add_ids (item ∷ items) l w = replace_ids (item ∷ items) l w

  pub add-HasTerms :
      (items : List ReplaceEntitlementItemInput) (l l' : License) (w : World Db)
      → (add_entitlements env items l w).0 ≡ ok l'
      → HasTerms l l'
  unfolding add_entitlements
  add-HasTerms [] l l' w h = ground arith
  add-HasTerms (item ∷ items) l l' w h = replace-HasTerms (item ∷ items) l l' w h
