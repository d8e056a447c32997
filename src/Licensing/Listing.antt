-- ===== src/Licensing/Listing.antt =====
-- ListLicensesUseCase and the `list` of the TypeORM repository. The query orders by `created_at`
-- alone; licenses created at one time stand in the order of the store.
pub mod Whole
use pos_cloud.Common.{◌≡◌, refl, ◌↔◌, Bool, true, false, Option, List, ok}
use pos_cloud.Common.Text.{Text, includes, ◌===◌}
use pos_cloud.Common.JsMap.{JsMap, values}
use pos_cloud.Common.Sorting.{sort, is_newer}
use pos_cloud.Kernel.{Env, search_pattern}
use pos_cloud.Pagination.{
  PaginationQuery, PaginatedResult, normalize_pagination, page_of, narrow, truthy,
}
use pos_cloud.Licensing.Status.{LicenseStatus, LicenseEdition, basic, premium, same_status}
use pos_cloud.Licensing.License.{License}
use pos_cloud.Licensing.UseCases.{M}

pub record ListLicensesQuery : Type 0 where
  pub pagination : PaginationQuery
  pub customer_id : Option Text
  pub status : Option LicenseStatus
  pub edition : Option LicenseEdition
  pub search : Option Text

-- `===` of the string enumeration
unfoldable pub same_edition : LicenseEdition → LicenseEdition → Bool
same_edition basic basic = true
same_edition premium premium = true
same_edition _ _ = false

abbrev pub of_customer : Text → License → Bool
of_customer id l = l.customer_id === id

abbrev pub has_status : LicenseStatus → License → Bool
has_status status l = same_status l.status status

abbrev pub of_edition : LicenseEdition → License → Bool
of_edition edition l = same_edition l.edition edition

pub same_edition_iff : (s t : LicenseEdition) → (same_edition s t ≡ true) ↔ (s ≡ t)
unfolding same_edition
same_edition_iff basic basic = (λ h. refl, λ h. refl)
same_edition_iff basic premium = (λ h. cc, λ h. cc)
same_edition_iff premium basic = (λ h. cc, λ h. cc)
same_edition_iff premium premium = (λ h. refl, λ h. refl)

module _ (env : Env) where
  abbrev pub is_found : Text → License → Bool
  is_found search l = env.ilike l.license_number (search_pattern search)

  unfoldable pub matching_licenses : ListLicensesQuery → JsMap License → List License
  matching_licenses query licenses = sort (is_newer λ (l : License). l.created_at) (
      narrow (truthy query.search) is_found (
        narrow query.edition of_edition (
          narrow query.status has_status
            (narrow (truthy query.customer_id) of_customer (values licenses)))))

  unfoldable pub list_licenses : ListLicensesQuery → M (PaginatedResult License)
  list_licenses query w = (
    ok (page_of (matching_licenses query w.db.licenses) (normalize_pagination query.pagination)),
    w,
  )
