-- ===== src/Licensing/Listing/Whole.antt =====
-- What a listing of licenses shows.
use pos_cloud.Common.{ℕ, ◌≡◌, ◌≤◌, Bool, true, ◌&&◌, List, ok, filter, ap}
use pos_cloud.Common.JsMap.{values}
use pos_cloud.Common.Sorting.{sort, is_newer, IsChain}
use pos_cloud.Kernel.{Env, World, search_pattern}
use pos_cloud.Pagination.{PaginationQuery, PaginatedResult, truthy}
use pos_cloud.Pagination.Pages.{IsListing, passes, narrow-filter, narrow_more}
use pos_cloud.Pagination.Criteria.{IsMet, IsMetText, AreThose}
use pos_cloud.Licensing.License.{License}
use pos_cloud.Licensing.UseCases.{Db}
use pos_cloud.Licensing.Listing.{
  ListLicensesQuery, of_customer, has_status, of_edition, is_found, matching_licenses,
  list_licenses,
}

module _ (env : Env) (query : ListLicensesQuery) (w : World Db) where
  -- A license has the customer, the status, the edition and in its number the search of the query,
  -- where it has these.
  abbrev pub Meets : License → Type 0
  Meets l =
      ((IsMetText query.customer_id (λ id. l.customer_id ≡ id)
          × IsMet query.status (λ status. l.status ≡ status))
        × IsMet query.edition (λ edition. l.edition ≡ edition))
      × IsMetText query.search (λ search. env.ilike l.license_number (search_pattern search) ≡ true)

  -- All criteria of a query, as a test of one license.
  abbrev pub is_asked_for : License → Bool
  is_asked_for l =
      ((passes (truthy query.customer_id) of_customer l && passes query.status has_status l)
        && passes query.edition of_edition l)
      && passes (truthy query.search) (is_found env) l

  abbrev pub created : License → ℕ
  created l = l.created_at

  abbrev pub asked_for : List License
  asked_for = sort (is_newer created) (filter is_asked_for (values w.db.licenses))

  pub record Lists : Type 0 where
    pub list : PaginationQuery → PaginatedResult License
    pub items : List License
    pub answers :
        (p : PaginationQuery)
        → list_licenses env (record query { pagination = p }) w ≡ (ok (list p), w)
    pub listing : IsListing list items query.pagination
    pub those : AreThose Meets (values w.db.licenses) items
    pub newest_first : IsChain (λ k l. l.created_at ≤ k.created_at) items

  pub matching : matching_licenses env query w.db.licenses ≡ asked_for
  unfolding matching_licenses
  matching =
      let licenses = values w.db.licenses in
      ap (sort (is_newer created)) (
        narrow_more (truthy query.search) (is_found env) _ licenses _ (
          narrow_more query.edition of_edition _ licenses _ (
            narrow_more query.status has_status _ licenses _
              (narrow-filter (truthy query.customer_id) of_customer licenses))))
