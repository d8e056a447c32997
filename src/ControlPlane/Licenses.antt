-- ===== src/ControlPlane/Licenses.antt =====
-- What the license controller answers over the stores of the customers and the licenses.
pub mod Listing
use pos_cloud.Common.{
  ℕ, ◌⊎◌, ◌>>=◌, ◌≡◌, refl, sym, subst, inl, inr, true, none, some, List, [], ◌∷◌, Result, ok, err,
  arith, Option-cases,
}
use pos_cloud.Common.Text.{Text}
use pos_cloud.Common.JsMap.{JsMap, get}
use pos_cloud.Common.JsMap.Laws.{IsKeyed}
use pos_cloud.Common.JsMap.Summaries.{contains, get-set_all, contains_distinct-All}
use pos_cloud.Kernel.{World}
use pos_cloud.CustomerManagement.Customer.{Customer}
use pos_cloud.CustomerManagement.UseCases.{get_customers_by_ids}
use pos_cloud.Installations.Summaries.{CustomerDisplaySummary}
use pos_cloud.Installations.Controller.{CurrentAdmin, build_admin_audit_actor}
use pos_cloud.Licensing.Status.{LicenseStatus, LicenseError, license_not_found}
use pos_cloud.Licensing.License.{License, CreateLicenseInput, ReplaceEntitlementItemInput}
use pos_cloud.Licensing.UseCases as Licenses
use pos_cloud.Licensing.UseCases.{
  create_license, change_license_status, replace_license_entitlements,
}
use pos_cloud.Licensing.UseCases.Returned.{
  IsReturned, create-IsReturned, change-IsReturned, replace-IsReturned,
}
use pos_cloud.Licensing.UseCases.Calls as LicenseCalls
use pos_cloud.Licensing.UseCases.Calls.Reach as LicenseReach
use pos_cloud.Licensing.Responses.{LicenseResponse, from_domain}
use pos_cloud.Licensing.Controller
use pos_cloud.Licensing.Controller.{
  ControllerError, of_use_case, run, respond, get_by_id, get_license_by_id, get_summaries_by_ids,
  get_customer_summaries, require_customer_summary, replace_entitlements,
}
use pos_cloud.ControlPlane.Adapters.{Platform, Settings, license_ports}
use pos_cloud.ControlPlane.Summaries.{customer_display, find_customer_displays}
use pos_cloud.ControlPlane.Capacity.{IsKnown, IsSound, HasIds, adapter-Answers}

-- the requests that are answered with a license
pub data Request : Type 0 where
  creates : CreateLicenseInput → CurrentAdmin → Request
  gets : Text → Request
  changes_status : Text → LicenseStatus → CurrentAdmin → Request
  replaces : Text → List ReplaceEntitlementItemInput → CurrentAdmin → Request

module _ (to_iso_string : ℕ → Text) (settings : Settings) (p : Platform) where
  -- The response shows the license with its stored customer.
  pub record IsShown (l : License) (r : Result ControllerError LicenseResponse) : Type 0 where
    pub customer : Customer
    pub stored_customer : get l.customer_id p.customers.db.customers ≡ some customer
    pub response : r ≡ ok (from_domain to_iso_string l (customer_display customer) true)

  -- What follows on an outcome of a use case: its error, and its state, are passed on, and a
  -- license is shown.
  abbrev pub Follows :
      Result LicenseError License × World Licenses.Db
      → Result ControllerError LicenseResponse × World Licenses.Db
      → Type 0
  Follows (err f, w') o = o ≡ (err (of_use_case f), w')
  Follows (ok l, w') o = (o.1 ≡ w') × IsShown l o.0

  abbrev pub find_customers : List Text → JsMap CustomerDisplaySummary
  find_customers = find_customer_displays p.customers

  abbrev shows :
      License → World Licenses.Db → Result ControllerError LicenseResponse × World Licenses.Db
  shows = respond find_customers to_iso_string (license_ports settings p)

  pub summary_found :
      (ids : List Text) (x : Text) (c : Customer)
      → IsKeyed (λ (v : Customer). v.id) p.customers.db.customers
      → contains ids x ≡ true
      → get x p.customers.db.customers ≡ some c
      → get x (get_summaries_by_ids find_customers ids) ≡ some (customer_display c)
  unfolding get_summaries_by_ids find_customer_displays get_customers_by_ids
  summary_found [] x c keyed asked found = absurd (cc asked)
  summary_found (id ∷ ids) x c keyed asked found =
      get-set_all (λ (v : Customer). v.id) customer_display (id ∷ ids) p.customers.db.customers [] x
        c keyed found (inl asked)

  respond_found :
      (l : License) (w : World Licenses.Db) (c : CustomerDisplaySummary)
      → get l.customer_id (get_customer_summaries find_customers (l ∷ [])) ≡ some c
      → shows l w ≡ (ok (from_domain to_iso_string l c true), w)
  unfolding respond require_customer_summary
  respond_found l w c found = ground arith

  known_shows :
      (l : License) (w : World Licenses.Db)
      → IsSound settings p
      → IsKnown p.customers.db.customers l.customer_id
      → Follows (ok l, w) (shows l w)
  unfolding get_customer_summaries
  known_shows l w h known = elim (Option-cases (get l.customer_id p.customers.db.customers)) [
    | inl missing ↦ absurd (known missing)
    | inr (c, stored) ↦
        let shown = respond_found l w (customer_display c) (
          summary_found _ l.customer_id c h.customers.keyed
            (contains_distinct-All (λ (v : License). v.customer_id) (l ∷ [])).0 stored) in
        subst (Follows (ok l, w)) (sym shown)
          (refl, record { customer = c; stored_customer = stored; response = refl })
  ]

  -- A handler that shows what a use case returns.
  abbrev shown :
      Result LicenseError License × World Licenses.Db
      → Result ControllerError LicenseResponse × World Licenses.Db
  shown o = (run (λ w. o) >>= shows) p.licenses

  shown-Follows :
      (o : Result LicenseError License × World Licenses.Db)
      → IsSound settings p
      → IsReturned o
      → LicenseReach.IsValid (IsKnown p.customers.db.customers) settings.licenses.next_id o.1
      → Follows o (shown o)
  shown-Follows (ok l, w') h stored valid = known_shows l w' h (valid.good l.id l (stored l refl)).1
  shown-Follows (err f, w') h stored valid = refl

  abbrev pub handle : Request → Result ControllerError LicenseResponse × World Licenses.Db
  handle (creates body caller) =
      Controller.create find_customers to_iso_string (license_ports settings p) body caller
        p.licenses
  handle (gets id) = get_by_id find_customers to_iso_string (license_ports settings p) id p.licenses
  handle (changes_status id status caller) =
      Controller.change_status find_customers to_iso_string (license_ports settings p) id status
        caller p.licenses
  handle (replaces id items caller) =
      replace_entitlements find_customers to_iso_string (license_ports settings p) id items caller
        p.licenses

  abbrev pub Answers : Request → Result ControllerError LicenseResponse × World Licenses.Db → Type 0
  Answers (creates body caller) o =
      Follows
        (create_license (license_ports settings p) body (build_admin_audit_actor caller) p.licenses)
        o
  Answers (gets id) o =
      (o.1 ≡ p.licenses)
      × (((get id p.licenses.db.licenses ≡ none) × (o.0 ≡ err (of_use_case license_not_found)))
          ⊎ ((l : License) × (get id p.licenses.db.licenses ≡ some l) × IsShown l o.0))
  Answers (changes_status id status caller) o =
      Follows
        (change_license_status (license_ports settings p) id status (build_admin_audit_actor caller)
          p.licenses)
        o
  Answers (replaces id items caller) o =
      Follows
        (replace_license_entitlements (license_ports settings p) id items
          (build_admin_audit_actor caller) p.licenses)
        o

  after-IsValid :
      (call : LicenseCalls.Call)
      → HasIds settings
      → IsSound settings p
      → LicenseReach.IsValid
          (IsKnown p.customers.db.customers)
          settings.licenses.next_id
          (LicenseCalls.serve (license_ports settings p) call p.licenses)
  after-IsValid call ids h =
      (LicenseReach.serve-Grows (IsKnown p.customers.db.customers) (license_ports settings p)
        p.licenses call (adapter-Answers settings p) ids.licenses h.licenses).0

  get_missing :
      (id : Text)
      → get id p.licenses.db.licenses ≡ none
      → handle (gets id) ≡ (err (of_use_case license_not_found), p.licenses)
  unfolding get_by_id get_license_by_id
  get_missing id missing = ground arith

  get_there :
      (id : Text) (l : License)
      → get id p.licenses.db.licenses ≡ some l
      → handle (gets id) ≡ shows l p.licenses
  unfolding get_by_id get_license_by_id
  get_there id l found = rw found refl

  -- Over sound stores, a request to create, to get or to change the status of a license, or to
  -- replace its entitlements, is answered with the license and its stored customer, or with
  -- the error of the use case, and leaves the state that the use case leaves. So no request ends
  -- because a summary is missing.
  pub license-Answers :
      (request : Request) → HasIds settings → IsSound settings p → Answers request (handle request)
  unfolding Controller.create Controller.change_status replace_entitlements LicenseCalls.serve
  license-Answers (creates body caller) ids h =
      let actor = build_admin_audit_actor caller in
      let ports = license_ports settings p in
      shown-Follows (create_license ports body actor p.licenses) h
        (create-IsReturned ports actor p.licenses body)
        (after-IsValid (LicenseCalls.creates body actor) ids h)
  license-Answers (gets id) ids h = elim (Option-cases (get id p.licenses.db.licenses)) [
    | inl missing ↦ rw (get_missing id missing) (refl, inl (missing, refl))
    | inr (l, found) ↦
        let (same, shown_l) = known_shows l p.licenses h (h.licenses.good id l found).1 in
        rw (get_there id l found) (same, inr (l, found, shown_l))
  ]
  license-Answers (changes_status id status caller) ids h =
      let actor = build_admin_audit_actor caller in
      let ports = license_ports settings p in
      shown-Follows (change_license_status ports id status actor p.licenses) h
        (change-IsReturned ports actor p.licenses id status)
        (after-IsValid (LicenseCalls.changes_status id status actor) ids h)
  license-Answers (replaces id items caller) ids h =
      let actor = build_admin_audit_actor caller in
      let ports = license_ports settings p in
      shown-Follows (replace_license_entitlements ports id items actor p.licenses) h
        (replace-IsReturned ports actor p.licenses id items)
        (after-IsValid (LicenseCalls.replaces id items actor) ids h)
