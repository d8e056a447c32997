-- ===== src/Installations/Listing/Whole.antt =====
-- What a listing of installations shows.
use pos_cloud.Common.{ℕ, suc, ◌≡◌, ◌⊎◌, ◌≤◌, Bool, true, ◌&&◌, Option, List, ok, filter, ap}
use mathlib.Core.List.{map}
use pos_cloud.Common.Text.{Text}
use pos_cloud.Common.JsMap.{JsMap, values, get}
use pos_cloud.Common.Sorting.{sort, is_newer, IsChain}
use pos_cloud.Kernel.{Env, World, search_pattern}
use pos_cloud.Pagination.{PaginationQuery, PaginatedResult, truthy}
use pos_cloud.Pagination.Pages.{IsListing, passes, narrow-filter, narrow_more}
use pos_cloud.Pagination.Criteria.{IsMet, IsMetText, AreThose}
use pos_cloud.Installations.Installation.{Installation}
use pos_cloud.Installations.Store.{Db}
use pos_cloud.Installations.Health.{
  InstallationHealthThresholds, compute_installation_health, last_seen_of,
}
use pos_cloud.Installations.Listing.{
  ListInstallationsQuery, InstallationListItemWithHealth, of_customer, of_license, on_platform,
  has_status, is_found, matching_installations, list_installations,
}

module _ (env : Env) (query : ListInstallationsQuery) where
  -- The code or the name of an installation has the search in it.
  abbrev pub IsFound : Text → Installation → Type 0
  IsFound search i =
      (env.ilike i.installation_code (search_pattern search) ≡ true)
      ⊎ (env.ilike i.name (search_pattern search) ≡ true)

  -- An installation has the customer, the license, the platform, the status and the search of the
  -- query, where it has these.
  abbrev pub Meets : Installation → Type 0
  Meets i =
      (((IsMetText query.customer_id (λ id. i.customer_id ≡ id)
            × IsMetText query.license_id (λ id. i.license_id ≡ id))
          × IsMet query.platform (λ platform. i.platform ≡ platform))
        × IsMet query.status (λ status. i.status ≡ status))
      × IsMetText query.search (λ search. IsFound search i)

  -- All criteria of a query, as a test of one installation.
  abbrev pub is_asked_for : Installation → Bool
  is_asked_for i =
      (((passes (truthy query.customer_id) of_customer i
            && passes (truthy query.license_id) of_license i)
          && passes query.platform on_platform i)
        && passes query.status has_status i)
      && passes (truthy query.search) (is_found env) i

  abbrev pub created : Installation → ℕ
  created i = i.created_at

  -- The installations that meet the query, newest first.
  abbrev pub asked_for : JsMap Installation → List Installation
  asked_for m = sort (is_newer created) (filter is_asked_for (values m))

  pub matching : (m : JsMap Installation) → matching_installations env query m ≡ asked_for m
  unfolding matching_installations
  matching m = ap (sort (is_newer created)) (
      narrow_more (truthy query.search) (is_found env) _ (values m) _ (
        narrow_more query.status has_status _ (values m) _ (
          narrow_more query.platform on_platform _ (values m) _ (
            narrow_more (truthy query.license_id) of_license _ (values m) _
              (narrow-filter (truthy query.customer_id) of_customer (values m))))))

  module _ (thresholds : InstallationHealthThresholds) (w : World Db) where
    abbrev t : ℕ
    t = env.clock w.ticks

    -- When an installation was last seen, and what is shown of it at the time of the call.
    abbrev pub seen : Installation → Option ℕ
    seen i = last_seen_of (get i.id w.db.health)

    abbrev pub shown : Installation → InstallationListItemWithHealth
    shown i = record {
      installation = i;
      health_status = compute_installation_health i.status (seen i) t thresholds;
      last_seen_at = seen i;
    }

    pub record Lists : Type 0 where
      pub list : PaginationQuery → PaginatedResult InstallationListItemWithHealth
      pub items : List Installation
      pub answers :
          (p : PaginationQuery)
          → list_installations env thresholds (record query { pagination = p }) w
            ≡ (ok (list p), record w { ticks = suc w.ticks })
      pub listing : IsListing list (map shown items) query.pagination
      pub those : AreThose Meets (values w.db.installations) items
      pub newest_first : IsChain (λ i j. j.created_at ≤ i.created_at) items

    abbrev matched : List Installation
    matched = asked_for w.db.installations
