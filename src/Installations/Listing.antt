-- ===== src/Installations/Listing.antt =====
-- ListInstallationsUseCase and the `list` of the TypeORM repository. The time at which an
-- installation was last seen is that of its row of installation_health. The query orders by
-- `createdAt` alone; installations created at one time stand in the order of the store.
pub mod Whole
use pos_cloud.Common.{ℕ, ◌≡◌, refl, ◌↔◌, Bool, true, false, ◌||◌, Option, List, ok, ◌>>=◌, pure}
use mathlib.Core.List.{map}
use pos_cloud.Common.Text.{Text, includes, ◌===◌}
use pos_cloud.Common.JsMap.{JsMap, values, get}
use pos_cloud.Common.Sorting.{sort, is_newer}
use pos_cloud.Kernel.{Env, World, now, search_pattern}
use pos_cloud.Pagination.{
  PaginationQuery, PaginationParams, PaginatedResult, normalize_pagination, page_of, map_items,
  narrow, truthy,
}
use pos_cloud.Installations.Status.{
  InstallationStatus, InstallationHealthStatus, Platform, windows, android, ios, same_status,
}
use pos_cloud.Installations.Installation.{Installation}
use pos_cloud.Installations.Store.{Db, HealthRow, Ports, M}
use pos_cloud.Installations.Health.{
  InstallationHealthThresholds, compute_installation_health, last_seen_of,
}

pub record ListInstallationsQuery : Type 0 where
  pub pagination : PaginationQuery
  pub customer_id : Option Text
  pub license_id : Option Text
  pub platform : Option Platform
  pub status : Option InstallationStatus
  pub search : Option Text

pub record InstallationListItem : Type 0 where
  pub installation : Installation
  pub last_seen_at : Option ℕ

pub record InstallationListItemWithHealth : Type 0 where
  pub installation : Installation
  pub health_status : InstallationHealthStatus
  pub last_seen_at : Option ℕ

-- `===` of the string enumeration
unfoldable pub same_platform : Platform → Platform → Bool
same_platform windows windows = true
same_platform ios ios = true
same_platform android android = true
same_platform _ _ = false

pub same_platform_iff : (s t : Platform) → (same_platform s t ≡ true) ↔ (s ≡ t)
unfolding same_platform
same_platform_iff windows windows = (λ h. refl, λ h. refl)
same_platform_iff windows android = (λ h. cc, λ h. cc)
same_platform_iff windows ios = (λ h. cc, λ h. cc)
same_platform_iff android windows = (λ h. cc, λ h. cc)
same_platform_iff android android = (λ h. refl, λ h. refl)
same_platform_iff android ios = (λ h. cc, λ h. cc)
same_platform_iff ios windows = (λ h. cc, λ h. cc)
same_platform_iff ios android = (λ h. cc, λ h. cc)
same_platform_iff ios ios = (λ h. refl, λ h. refl)

abbrev pub of_customer : Text → Installation → Bool
of_customer id i = i.customer_id === id

abbrev pub of_license : Text → Installation → Bool
of_license id i = i.license_id === id

abbrev pub on_platform : Platform → Installation → Bool
on_platform platform i = same_platform i.platform platform

abbrev pub has_status : InstallationStatus → Installation → Bool
has_status status i = same_status i.status status

abbrev pub list_item : JsMap HealthRow → Installation → InstallationListItem
list_item health i = record { installation = i; last_seen_at = last_seen_of (get i.id health) }

abbrev pub with_health :
    ℕ → InstallationHealthThresholds → InstallationListItem → InstallationListItemWithHealth
with_health t thresholds item = record {
  installation = item.installation;
  health_status =
      compute_installation_health item.installation.status item.last_seen_at t thresholds;
  last_seen_at = item.last_seen_at;
}

module _ (env : Env) where
  abbrev pub is_found : Text → Installation → Bool
  is_found search i =
      let pattern = search_pattern search in
      env.ilike i.installation_code pattern || env.ilike i.name pattern

  unfoldable pub matching_installations :
      ListInstallationsQuery → JsMap Installation → List Installation
  matching_installations query installations = sort (is_newer λ (i : Installation). i.created_at) (
      narrow (truthy query.search) is_found (
        narrow query.status has_status (
          narrow query.platform on_platform (
            narrow (truthy query.license_id) of_license
              (narrow (truthy query.customer_id) of_customer (values installations))))))

  -- `TypeOrmInstallationRepository.list`
  unfoldable pub list_rows : ListInstallationsQuery → M (PaginatedResult InstallationListItem)
  list_rows query w = (
    ok (
        map_items (list_item w.db.health) (
          page_of (matching_installations query w.db.installations)
            (normalize_pagination query.pagination))),
    w,
  )

  unfoldable pub list_installations :
      InstallationHealthThresholds
      → ListInstallationsQuery
      → M (PaginatedResult InstallationListItemWithHealth)
  list_installations thresholds query = do
    result ← list_rows query
    t ← now env
    pure (map_items (with_health t thresholds) result)
