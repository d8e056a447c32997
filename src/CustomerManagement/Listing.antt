-- ===== src/CustomerManagement/Listing.antt =====
-- ListCustomersUseCase and the `list` of the TypeORM repository. The query orders by `created_at`
-- alone; customers created at one time stand in the order of the store.
pub mod Whole
use pos_cloud.Common.{Bool, true, false, ◌||◌, Option, none, some, List, ok, Action, filter, ◌≡◌}
use pos_cloud.Common.Text.{Text, includes}
use pos_cloud.Common.JsMap.{JsMap, values}
use pos_cloud.Common.Sorting.{sort, is_newer}
use pos_cloud.Kernel.{Env, World, search_pattern}
use pos_cloud.Pagination.{
  PaginationQuery, PaginationParams, PaginatedResult, normalize_pagination, page_of, narrow, truthy,
}
use pos_cloud.CustomerManagement.Status.{CustomerStatus, same_status}
use pos_cloud.CustomerManagement.Customer.{Customer}
use pos_cloud.CustomerManagement.UseCases.{Db, M}

pub record ListCustomersQuery : Type 0 where
  pub pagination : PaginationQuery
  pub status : Option CustomerStatus
  pub search : Option Text

abbrev pub has_status : CustomerStatus → Customer → Bool
has_status status c = same_status c.status status

module _ (env : Env) where
  -- a value that is not NULL and matches
  abbrev pub is_like : Text → Option Text → Bool
  is_like pattern none = false
  is_like pattern (some value) = env.ilike value pattern

  abbrev pub is_found : Text → Customer → Bool
  is_found search c =
      let pattern = search_pattern search in
      env.ilike c.code pattern || env.ilike c.legal_name pattern || is_like pattern c.trade_name

  unfoldable pub matching_customers : ListCustomersQuery → JsMap Customer → List Customer
  matching_customers query customers =
      sort (is_newer λ (c : Customer). c.created_at)
        (narrow (truthy query.search) is_found (narrow query.status has_status (values customers)))

  unfoldable pub list_customers : ListCustomersQuery → M (PaginatedResult Customer)
  list_customers query w = (
    ok (page_of (matching_customers query w.db.customers) (normalize_pagination query.pagination)),
    w,
  )
