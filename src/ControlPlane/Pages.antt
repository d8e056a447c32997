-- ===== src/ControlPlane/Pages.antt =====
-- What the listing of the installation controller answers over the stores of the three contexts.
use pos_cloud.Common.{
  ℕ, suc, ◌-◌, ◌*◌, ◌≡◌, refl, sym, ap, subst, some, List, [], ◌∷◌, Result, ok, arith, All, All-and,
  All-map, All-filter, All-take, All-drop,
}
use mathlib.Core.List.{map}
use pos_cloud.Common.Text.{Text}
use pos_cloud.Common.JsMap.{JsMap, get, values}
use pos_cloud.Common.JsMap.Laws.{values-All}
use pos_cloud.Common.JsMap.Summaries.{contains_distinct-All}
use pos_cloud.Common.Sorting.{All-sort}
use pos_cloud.Kernel.{World}
use pos_cloud.Pagination.{map_items, PaginatedResult, page_of, normalize_pagination}
use pos_cloud.Installations.Installation.{Installation}
use pos_cloud.Installations.Store
use pos_cloud.Installations.Health.{InstallationHealthThresholds}
use pos_cloud.Installations.Summaries.{CustomerDisplaySummary, LicenseDisplaySummary}
use pos_cloud.Installations.Listing.{
  ListInstallationsQuery, InstallationListItemWithHealth, list_item, with_health,
  list_installations, list_rows, matching_installations,
}
use pos_cloud.Installations.Listing.Whole.{matching, is_asked_for}
use pos_cloud.Installations.Responses.{InstallationListItemResponse, from_list_item}
use pos_cloud.Installations.Controller.{
  ControllerError, get_relation_summaries, require_summary, list_item_response, list_item_responses,
  list,
}
use pos_cloud.ControlPlane.Adapters.{Platform, Settings, installation_ports}
use pos_cloud.ControlPlane.Summaries.{
  customer_display, license_display, summary_ports, customer_summary_found, license_summary_found,
}
use pos_cloud.ControlPlane.Capacity.{IsSound}
use pos_cloud.ControlPlane.Shown.{Relates, owned-Relates}

-- The installations of the items that are made of a list of installations.
installations_of :
    (health : JsMap Store.HealthRow) (t : ℕ) (thresholds : InstallationHealthThresholds)
    (is : List Installation)
    → map
        (λ (item : InstallationListItemWithHealth). item.installation)
        (map (with_health t thresholds) (map (list_item health) is))
      ≡ is
installations_of health t thresholds [] = refl
installations_of health t thresholds (i ∷ is) =
    ap (λ r. i ∷ r) (installations_of health t thresholds is)

module _ (to_iso_string : ℕ → Text) (settings : Settings) (p : Platform) where
  -- An item of a listing with its stored customer and its stored license.
  pub record IsItemShown (item : InstallationListItemWithHealth) (r : InstallationListItemResponse)
      : Type 0 where
    pub related : Relates p item.installation
    pub response :
        r
        ≡ from_list_item to_iso_string item
            (customer_display related.customer)
            (license_display related.license)

  -- One response for each item, in the same order.
  abbrev pub AreShown :
      List InstallationListItemWithHealth → List InstallationListItemResponse → Type 0
  AreShown [] [] = Unit
  AreShown [] (r ∷ rs) = ⊥
  AreShown (item ∷ items) [] = ⊥
  AreShown (item ∷ items) (r ∷ rs) = IsItemShown item r × AreShown items rs

  module _ (customers : JsMap CustomerDisplaySummary) (licenses : JsMap LicenseDisplaySummary) where
    -- The summaries of an installation are at hand.
    pub record HasSummaries (i : Installation) : Type 0 where
      pub related : Relates p i
      pub customer : get i.customer_id customers ≡ some (customer_display related.customer)
      pub license : get i.license_id licenses ≡ some (license_display related.license)

    item_shown :
        (item : InstallationListItemWithHealth) (h : HasSummaries item.installation)
        → list_item_response to_iso_string customers licenses item
          ≡ ok (
              from_list_item to_iso_string item
                (customer_display h.related.customer)
                (license_display h.related.license))
    unfolding list_item_response require_summary
    item_shown item h =
        let found_c = h.customer in let found_l = h.license in ground (arith, found_c, found_l)

    items_shown :
        (health : JsMap Store.HealthRow) (t : ℕ) (thresholds : InstallationHealthThresholds)
        (is : List Installation)
        → All HasSummaries is
        → let items = map (with_health t thresholds) (map (list_item health) is) in
          (rs : List InstallationListItemResponse) × (list_item_responses to_iso_string customers
              licenses items
            ≡ ok rs)
          × AreShown items rs
    unfolding list_item_responses
    items_shown health t thresholds [] h = ([], refl, tt)
    items_shown health t thresholds (i ∷ is) (a, h) =
        let (rs, done, shown) = items_shown health t thresholds is h in
        let item = with_health t thresholds (list_item health i) in
        (
          from_list_item to_iso_string item (customer_display a.related.customer)
                (license_display a.related.license)
              ∷ rs,
          rw (item_shown item a, done) refl,
          (record { related = a.related; response = refl }, shown),
        )

  abbrev relations : List Installation → JsMap CustomerDisplaySummary × JsMap LicenseDisplaySummary
  relations = get_relation_summaries (summary_ports p)

  stored-Relates : IsSound settings p → All (Relates p) (values p.installations.db.installations)
  stored-Relates h =
      values-All (λ (i : Installation). i.id) (Relates p) p.installations.db.installations
        h.installations.installations_keyed
        λ k i found. owned-Relates settings p i h (h.fits.owned k i found)

  -- The summaries that are asked for once for a page are those of its installations.
  page-HasSummaries :
      (is : List Installation)
      → IsSound settings p
      → All (Relates p) is
      → All (HasSummaries (relations is).0 (relations is).1) is
  unfolding get_relation_summaries
  page-HasSummaries is h related =
      All-map _ _ is
        (λ i (r, (in_customers, in_licenses)). record {
          related = r;
          customer =
              customer_summary_found p _ i.customer_id r.customer h.customers.keyed in_customers
                r.stored_customer;
          license =
              license_summary_found p _ i.license_id r.license h.licenses.keyed in_licenses
                r.stored_license;
        })
        (All-and _ _ is related (
          All-and _ _ is (contains_distinct-All (λ (i : Installation). i.customer_id) is)
            (contains_distinct-All (λ (i : Installation). i.license_id) is)))

  module _ (config : InstallationHealthThresholds) (query : ListInstallationsQuery) where
    abbrev after : World Store.Db
    after = record (p.installations) { ticks = suc p.installations.ticks }

    -- What `list` answers.
    pub record IsAnswered
        (o : Result ControllerError (PaginatedResult InstallationListItemResponse) × World Store.Db)
        : Type 0 where
      pub page : PaginatedResult InstallationListItemWithHealth
      pub responses : List InstallationListItemResponse
      pub found :
          list_installations settings.installations config query p.installations ≡ (ok page, after)
      pub answer : o ≡ (
        ok (record {
          items = responses;
          page = page.page;
          page_size = page.page_size;
          total = page.total;
          total_pages = page.total_pages;
        }),
        after,
      )
      pub shown : AreShown page.items responses

    abbrev page_installations : List Installation
    page_installations =
        (page_of
          (matching_installations settings.installations query p.installations.db.installations)
          (normalize_pagination query.pagination)).items

    page-Relates : IsSound settings p → All (Relates p) page_installations
    unfolding page_of
    page-Relates h =
        let c = normalize_pagination query.pagination in
        All-take _ c.page_size _ (
          All-drop _ ((c.page - 1) * c.page_size) _ (
            subst (All (Relates p))
              (sym (matching settings.installations query p.installations.db.installations))
              (All-sort _ _ _
                (All-filter _ (is_asked_for settings.installations query) _ (stored-Relates h)))))

    -- Over sound stores the listing of installations is answered, whatever is asked for, with the
    -- page that the use case finds: one response for each item, in the same order, with the
    -- stored customer and the stored license of its installation. So no listing
    -- ends because a summary is missing.
    pub list-IsAnswered :
        IsSound settings p
        → IsAnswered (
            list to_iso_string
              (installation_ports settings p)
              (summary_ports p)
              config
              query
              p.installations)
    unfolding list list_installations list_rows
    list-IsAnswered h =
        let is = page_installations in
        let health = p.installations.db.health in
        let t = settings.installations.clock p.installations.ticks in
        let (rs, done, shown) =
          items_shown (relations is).0 (relations is).1 health t config is
            (page-HasSummaries is h (page-Relates h)) in
        let done' =
          subst
            (λ js.
              list_item_responses to_iso_string (relations js).0 (relations js).1
                (map (with_health t config) (map (list_item health) is))
              ≡ ok rs)
            (sym (installations_of health t config is)) done in
        record {
          page = map_items (with_health t config) (
              map_items (list_item health) (
                page_of
                  (matching_installations settings.installations query
                    p.installations.db.installations)
                  (normalize_pagination query.pagination)));
          responses = rs;
          found = refl;
          answer = rw done' refl;
          shown = shown;
        }
