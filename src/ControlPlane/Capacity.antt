-- ===== src/ControlPlane/Capacity.antt =====
-- What holds of the three contexts together after any sequence of calls.
use pos_cloud.Common.{
  ◌≢◌, ℕ, ◌≤◌, ◌≡◌, ◌∙◌, inl, inr, Option, none, some, List, [], ◌∷◌, arith, sym, Option-cases,
}
use pos_cloud.Common.Text.{Text}
use pos_cloud.Common.JsMap.{JsMap, get}
use pos_cloud.Common.JsMap.Table.{IsTable-weaken}
use pos_cloud.CustomerManagement.Customer.{Customer}
use pos_cloud.Common.JsMap.Slots.{IsInjective}
use pos_cloud.CustomerManagement.UseCases.Create as CreateCustomer
use pos_cloud.CustomerManagement.UseCases.Calls as CustomerCalls
use pos_cloud.Installations.Installation.{Installation}
use pos_cloud.Installations.Invariant as Stores
use pos_cloud.Installations.Calls.Capacity.{Fits, IsWithin, serve-Fits}
use pos_cloud.Installations.Calls.Reach as Reach
use pos_cloud.Licensing.License.{License}
use pos_cloud.Licensing.UseCases.Terms.{KeepsTerms}
use pos_cloud.Licensing.UseCases.Calls.Reach as LicenseReach
use pos_cloud.ControlPlane.Adapters.{
  Platform, Settings, license_ports, read_customer_missing, installation_ports, read_license_sound,
}
use pos_cloud.ControlPlane.Calls.{
  Call, of_customers, of_licenses, of_installations, serve, serve_all,
}

abbrev pub capacity_of : Option License → ℕ
capacity_of none = 0
capacity_of (some l) = l.max_installations

-- how many installations a license allows; none if it is not stored
abbrev pub allowed : JsMap License → Text → ℕ
allowed licenses id = capacity_of (get id licenses)

-- A stored customer.
abbrev pub IsKnown : JsMap Customer → Text → Type 0
IsKnown customers id = get id customers ≢ none

-- A stored license, and its customer.
abbrev pub Owns : JsMap License → Text → Text → Type 0
Owns licenses id customer = (l : License) × (get id licenses ≡ some l) × (l.customer_id ≡ customer)

module _ (settings : Settings) where
  -- The invariant of each context; no license has more installations that are not decommissioned
  -- than it allows, every installation is of a stored license and of its customer, and every
  -- license of a stored customer.
  pub record IsSound (p : Platform) : Type 0 where
    pub customers : CreateCustomer.IsValid settings.customers p.customers
    pub licenses :
        LicenseReach.IsValid (IsKnown p.customers.db.customers) settings.licenses.next_id p.licenses
    pub installations :
        Stores.IsValid settings.installations.next_id p.installations.ids p.installations.db
    pub fits :
        Fits
          (allowed p.licenses.db.licenses)
          (Owns p.licenses.db.licenses)
          p.installations.db.installations

  -- No generator gives an id twice.
  pub record HasIds : Type 0 where
    pub customers : IsInjective settings.customers.next_id
    pub licenses : IsInjective settings.licenses.next_id
    pub installations : IsInjective settings.installations.next_id

  allowed_more : (m m' : JsMap License) (k : Text) → KeepsTerms m m' → allowed m k ≤ allowed m' k
  allowed_more m m' k keeps = elim (Option-cases (get k m)) [
    | inl missing ↦ rw missing (omega arith)
    | inr (l, found) ↦
        let (l', found', terms) = keeps k l found in
        rw (found, found', terms.capacity) (omega arith)
  ]

  Fits-licenses :
      (m m' : JsMap License) (installations : JsMap Installation)
      → KeepsTerms m m'
      → Fits (allowed m) (Owns m) installations
      → Fits (allowed m') (Owns m') installations
  Fits-licenses m m' installations keeps h = record {
    capacity = λ license. omega (arith, h.capacity license, allowed_more m m' license keeps);
    owned = λ k i found.
        let (l, there, same) = h.owned k i found in
        let (l', there', terms) = keeps i.license_id l there in (l', there', terms.customer ∙ same);
  }

  pub adapters-IsWithin :
      (p : Platform)
      → IsWithin
          (allowed p.licenses.db.licenses)
          (Owns p.licenses.db.licenses)
          (installation_ports settings p)
  adapters-IsWithin p id s h =
      let (l, found, customer, max, usable) = read_license_sound settings p id s h in
      (rw found (omega (arith, max)), (l, found, sym customer))

  pub adapter-Answers :
      (p : Platform)
      → LicenseReach.Answers (IsKnown p.customers.db.customers) (license_ports settings p)
  adapter-Answers p id s h gone = cc (read_customer_missing p.customers id gone, h)

  serve-IsSound :
      (call : Call) (p : Platform) → HasIds → IsSound p → IsSound (serve settings call p)
  unfolding serve
  serve-IsSound (of_customers call) p ids h =
      let (valid, kept, stays) =
        CustomerCalls.served settings.customers p.customers call ids.customers h.customers in
      record {
        customers = valid;
        licenses =
            IsTable-weaken _ _ _ _ _ h.licenses λ l good. (good.0, stays l.customer_id good.1);
        installations = h.installations;
        fits = h.fits;
      }
  serve-IsSound (of_licenses call) p ids h =
      let (valid, keeps) =
        LicenseReach.serve-Grows (IsKnown p.customers.db.customers) (license_ports settings p)
          p.licenses call (adapter-Answers p) ids.licenses h.licenses in
      record {
        customers = h.customers;
        licenses = valid;
        installations = h.installations;
        fits = Fits-licenses p.licenses.db.licenses _ _ keeps h.fits;
      }
  serve-IsSound (of_installations call) p ids h = record {
    customers = h.customers;
    licenses = h.licenses;
    installations =
        (Reach.served (installation_ports settings p) p.installations call ids.installations
          h.installations).0;
    fits =
        serve-Fits (allowed p.licenses.db.licenses) (Owns p.licenses.db.licenses)
          (installation_ports settings p) p.installations h.installations h.fits call
          ids.installations (adapters-IsWithin p);
  }

  -- After any sequence of calls of the three contexts, which ask one another through the adapters,
  -- no license has more installations that are not decommissioned than it allows, every installation
  -- is of a stored license and of the customer of that license, every license is of a stored
  -- customer, and the invariants of the three stores hold.
  pub serve_all-IsSound :
      (calls : List Call) (p : Platform) → HasIds → IsSound p → IsSound (serve_all settings calls p)
  unfolding serve_all
  serve_all-IsSound [] p ids h = h
  serve_all-IsSound (call ∷ calls) p ids h =
      serve_all-IsSound calls (serve settings call p) ids (serve-IsSound call p ids h)
