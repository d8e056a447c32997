-- ===== src/CustomerManagement/Listing/Whole.antt =====
-- What a listing of customers shows.
use pos_cloud.Common.{ℕ, ◌≡◌, ◌⊎◌, ◌≤◌, Bool, true, ◌&&◌, some, List, ok, filter}
use pos_cloud.Common.Text.{Text}
use pos_cloud.Common.JsMap.{values}
use pos_cloud.Common.Sorting.{sort, is_newer, IsChain}
use pos_cloud.Kernel.{Env, World, search_pattern}
use pos_cloud.Pagination.{PaginationQuery, PaginatedResult, truthy}
use pos_cloud.Pagination.Pages.{IsListing, passes}
use pos_cloud.Pagination.Criteria.{IsMet, IsMetText, AreThose}
use pos_cloud.CustomerManagement.Customer.{Customer}
use pos_cloud.CustomerManagement.UseCases.{Db}
use pos_cloud.CustomerManagement.Listing.{ListCustomersQuery, has_status, is_found, list_customers}

module _ (env : Env) (query : ListCustomersQuery) where
  -- The code, the legal name or the trade name, if there is one, has the search in it.
  abbrev pub IsFound : Text → Customer → Type 0
  IsFound search c =
      ((env.ilike c.code (search_pattern search) ≡ true)
        ⊎ (env.ilike c.legal_name (search_pattern search) ≡ true))
      ⊎ ((name : Text) × (c.trade_name ≡ some name)
          × (env.ilike name (search_pattern search) ≡ true))

  -- A customer has the status and the search of the query, where it has these.
  abbrev pub Meets : Customer → Type 0
  Meets c =
      IsMet query.status (λ status. c.status ≡ status)
      × IsMetText query.search (λ search. IsFound search c)

  -- Both criteria, as a test.
  abbrev is_asked_for : Customer → Bool
  is_asked_for c = passes query.status has_status c && passes (truthy query.search) (is_found env) c

  module _ (w : World Db) where
    abbrev created : Customer → ℕ
    created c = c.created_at

    abbrev rows : List Customer
    rows = sort (is_newer created) (filter is_asked_for (values w.db.customers))

    pub record Lists : Type 0 where
      pub list : PaginationQuery → PaginatedResult Customer
      pub items : List Customer
      pub answers :
          (p : PaginationQuery)
          → list_customers env (record query { pagination = p }) w ≡ (ok (list p), w)
      pub listing : IsListing list items query.pagination
      pub those : AreThose Meets (values w.db.customers) items
      pub newest_first : IsChain (λ c d. d.created_at ≤ c.created_at) items
