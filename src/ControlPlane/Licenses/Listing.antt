-- ===== src/ControlPlane/Licenses/Listing.antt =====
-- What the listing of the license controller answers over the stores of customers and licenses.
use pos_cloud.Common.{
  ℕ, ◌-◌, ◌*◌, ◌≡◌, refl, sym, subst, inl, inr, false, some, List, [], ◌∷◌, Result, ok, arith,
  Option-cases, All, All-and, All-map, All-filter, All-take, All-drop,
}
use pos_cloud.Common.Text.{Text}
use pos_cloud.Common.JsMap.{JsMap, get}
use pos_cloud.Common.JsMap.Laws.{values-All}
use pos_cloud.Common.JsMap.Summaries.{contains_distinct-All}
use pos_cloud.Common.Sorting.{All-sort}
use pos_cloud.Kernel.{World}
use pos_cloud.Pagination.{PaginatedResult, page_of, normalize_pagination}
use pos_cloud.CustomerManagement.Customer.{Customer}
use pos_cloud.Installations.Summaries.{CustomerDisplaySummary}
use pos_cloud.Licensing.License.{License}
use pos_cloud.Licensing.UseCases as Licenses
use pos_cloud.Licensing.Listing.{ListLicensesQuery, list_licenses, matching_licenses}
use pos_cloud.Licensing.Listing.Whole.{matching, is_asked_for}
use pos_cloud.Licensing.Responses.{LicenseResponse, from_domain}
use pos_cloud.Licensing.Controller.{
  ControllerError, get_customer_summaries, require_customer_summary, list_responses, list,
}
use pos_cloud.ControlPlane.Adapters.{Platform, Settings, license_ports}
use pos_cloud.ControlPlane.Summaries.{customer_display}
use pos_cloud.ControlPlane.Capacity.{IsKnown, IsSound}
use pos_cloud.ControlPlane.Licenses.{find_customers, summary_found}

module _ (to_iso_string : ℕ → Text) (settings : Settings) (p : Platform) where
  abbrev summaries : List License → JsMap CustomerDisplaySummary
  summaries = get_customer_summaries (find_customers to_iso_string settings p)

  -- A license of a listing with its stored customer, and without its entitlements.
  pub record IsListed (l : License) (r : LicenseResponse) : Type 0 where
    pub customer : Customer
    pub stored_customer : get l.customer_id p.customers.db.customers ≡ some customer
    pub response : r ≡ from_domain to_iso_string l (customer_display customer) false

  -- One response for each license, in the same order.
  abbrev pub AreListed : List License → List LicenseResponse → Type 0
  AreListed [] [] = Unit
  AreListed [] (r ∷ rs) = ⊥
  AreListed (l ∷ ls) [] = ⊥
  AreListed (l ∷ ls) (r ∷ rs) = IsListed l r × AreListed ls rs

  -- The summary of the customer of a license is at hand.
  abbrev HasSummary : JsMap CustomerDisplaySummary → License → Type 0
  HasSummary found l =
      (c : Customer) × (get l.customer_id p.customers.db.customers ≡ some c)
      × (get l.customer_id found ≡ some (customer_display c))

  licenses_listed :
      (found : JsMap CustomerDisplaySummary) (ls : List License)
      → All (HasSummary found) ls
      → (rs : List LicenseResponse) × (list_responses to_iso_string found ls ≡ ok rs)
        × AreListed ls rs
  unfolding list_responses require_customer_summary
  licenses_listed found [] h = ([], refl, tt)
  licenses_listed found (l ∷ ls) ((c, stored, there), h) =
      let (rs, done, listed) = licenses_listed found ls h in
      (
        from_domain to_iso_string l (customer_display c) false ∷ rs,
        ground (arith, there, done),
        (record { customer = c; stored_customer = stored; response = refl }, listed),
      )

  page-HasSummary :
      (ls : List License)
      → IsSound settings p
      → All (λ (l : License). IsKnown p.customers.db.customers l.customer_id) ls
      → All (HasSummary (summaries ls)) ls
  unfolding get_customer_summaries
  page-HasSummary ls h known =
      All-map _ _ ls
        (λ l (there, asked). elim (Option-cases (get l.customer_id p.customers.db.customers)) [
          | inl missing ↦ absurd (there missing)
          | inr (c, stored) ↦ (
            c,
            stored,
            summary_found to_iso_string settings p _ l.customer_id c h.customers.keyed asked stored,
          )
        ])
        (All-and _ _ ls known (contains_distinct-All (λ (l : License). l.customer_id) ls))

  module _ (query : ListLicensesQuery) where
    -- What `list` answers.
    pub record IsAnswered
        (o : Result ControllerError (PaginatedResult LicenseResponse) × World Licenses.Db)
        : Type 0 where
      pub page : PaginatedResult License
      pub responses : List LicenseResponse
      pub found : list_licenses settings.licenses query p.licenses ≡ (ok page, p.licenses)
      pub answer : o ≡ (
        ok (record {
          items = responses;
          page = page.page;
          page_size = page.page_size;
          total = page.total;
          total_pages = page.total_pages;
        }),
        p.licenses,
      )
      pub listed : AreListed page.items responses

    abbrev page_licenses : PaginatedResult License
    page_licenses =
        page_of (matching_licenses settings.licenses query p.licenses.db.licenses)
          (normalize_pagination query.pagination)

    page-IsKnown :
        IsSound settings p
        → All (λ (l : License). IsKnown p.customers.db.customers l.customer_id) page_licenses.items
    unfolding page_of
    page-IsKnown h =
        let c = normalize_pagination query.pagination in
        All-take _ c.page_size _ (
          All-drop _ ((c.page - 1) * c.page_size) _ (
            subst (All (λ (l : License). IsKnown p.customers.db.customers l.customer_id))
              (sym (matching settings.licenses query p.licenses))
              (All-sort _ _ _ (
                All-filter _ (is_asked_for settings.licenses query p.licenses) _ (
                  values-All (λ (l : License). l.id) _ p.licenses.db.licenses h.licenses.keyed
                    λ k l found. (h.licenses.good k l found).1)))))

    -- Over sound stores the listing of licenses is answered, whatever is asked for, with the page
    -- that the use case finds, and changes nothing: one response for each license, in the same
    -- order, with its stored customer and without its entitlements. So no listing ends because a
    -- summary is missing.
    pub license_list-IsAnswered :
        IsSound settings p
        → IsAnswered (
            list
              (find_customers to_iso_string settings p)
              to_iso_string
              (license_ports settings p)
              query
              p.licenses)
    unfolding list list_licenses
    license_list-IsAnswered h =
        let (rs, done, listed) =
          licenses_listed (summaries page_licenses.items) page_licenses.items
            (page-HasSummary page_licenses.items h (page-IsKnown h)) in
        record {
          page = page_licenses;
          responses = rs;
          found = refl;
          answer = rw done refl;
          listed = listed;
        }
