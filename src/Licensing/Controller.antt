-- ===== src/Licensing/Controller.antt =====
-- presentation/http/license.controller.ts. What `Date.toISOString` and the summaries of the
-- customers answer are parameters; the dates of a request body are parsed.
use pos_cloud.Common.{
  ℕ, true, false, Option, none, some, List, [], ◌∷◌, Result, ok, err, Action, ◌>>=◌, pure, or_throw,
  lift, and_then,
}
use mathlib.Core.List.{map}
use pos_cloud.Common.Text.{Text}
use pos_cloud.Common.JsMap.{JsMap, get}
use pos_cloud.Common.JsMap.Summaries.{distinct}
use pos_cloud.Kernel.{World}
use pos_cloud.Pagination.{PaginatedResult}
use pos_cloud.Installations.Summaries.{CustomerDisplaySummary}
use pos_cloud.Installations.Controller.{CurrentAdmin, build_admin_audit_actor}
use pos_cloud.Licensing.Status.{LicenseStatus, LicenseError, license_not_found}
use pos_cloud.Licensing.License.{License, CreateLicenseInput, ReplaceEntitlementItemInput}
use pos_cloud.Licensing.UseCases.{
  Db, Ports, M, find_license, create_license, change_license_status, replace_license_entitlements,
}
use pos_cloud.Licensing.Listing.{ListLicensesQuery, list_licenses}
use pos_cloud.Licensing.Responses.{LicenseResponse, from_domain}

-- What a handler throws: the error of a use case, or the plain `Error` of a missing summary.
pub data ControllerError : Type 0 where
  of_use_case : LicenseError → ControllerError
  summary_missing : ControllerError

abbrev pub Handler : Type 0 → Type 0
Handler A = Action (World Db) ControllerError A

abbrev pub as_response : {A : Type 0} → Result LicenseError A → Result ControllerError A
as_response (ok a) = ok a
as_response (err e) = err (of_use_case e)

-- `await useCase.execute(…)`, whose errors pass through
abbrev pub run : {A : Type 0} → M A → Handler A
run m w = let (r, w') = m w in (as_response r, w')

-- `requireCustomerSummary`
unfoldable pub require_customer_summary :
    JsMap CustomerDisplaySummary → Text → Result ControllerError CustomerDisplaySummary
require_customer_summary summaries id = elim (get id summaries) [
  | none ↦ err summary_missing
  | some s ↦ ok s
]

-- `GetLicenseByIdUseCase.execute`
unfoldable pub get_license_by_id : Text → M (Option License)
get_license_by_id id = find_license id

-- the items of the response of `list`, with the summaries of the page
unfoldable pub list_responses :
    (ℕ → Text)
    → JsMap CustomerDisplaySummary
    → List License
    → Result ControllerError (List LicenseResponse)
list_responses to_iso_string summaries [] = ok []
list_responses to_iso_string summaries (l ∷ ls) =
    and_then (require_customer_summary summaries l.customer_id) λ customer.
      and_then (list_responses to_iso_string summaries ls)
        λ rest. ok (from_domain to_iso_string l customer false ∷ rest)

module _ (find_customers : List Text → JsMap CustomerDisplaySummary) where
  -- `GetCustomerSummariesUseCase.execute`
  unfoldable pub get_summaries_by_ids : List Text → JsMap CustomerDisplaySummary
  get_summaries_by_ids [] = []
  get_summaries_by_ids (id ∷ ids) = find_customers (id ∷ ids)

  -- `getCustomerSummaries`
  unfoldable pub get_customer_summaries : List License → JsMap CustomerDisplaySummary
  get_customer_summaries licenses =
      get_summaries_by_ids (distinct (map (λ (l : License). l.customer_id) licenses))

  module _ (to_iso_string : ℕ → Text) (ports : Ports) where
    -- the end of the handlers that answer with one license
    unfoldable pub respond : License → Handler LicenseResponse
    respond l = do
      let summaries = get_customer_summaries (l ∷ [])
      customer ← lift (require_customer_summary summaries l.customer_id)
      pure (from_domain to_iso_string l customer true)

    unfoldable pub create : CreateLicenseInput → CurrentAdmin → Handler LicenseResponse
    create body caller = do
      l ← run (create_license ports body (build_admin_audit_actor caller))
      respond l

    unfoldable pub get_by_id : Text → Handler LicenseResponse
    get_by_id id = do
      found ← run (get_license_by_id id)
      l ← or_throw found (of_use_case license_not_found)
      respond l

    unfoldable pub change_status : Text → LicenseStatus → CurrentAdmin → Handler LicenseResponse
    change_status id status caller = do
      l ← run (change_license_status ports id status (build_admin_audit_actor caller))
      respond l

    unfoldable pub replace_entitlements :
        Text → List ReplaceEntitlementItemInput → CurrentAdmin → Handler LicenseResponse
    replace_entitlements id entitlements caller = do
      l ← run (replace_license_entitlements ports id entitlements (build_admin_audit_actor caller))
      respond l

    unfoldable pub list : ListLicensesQuery → Handler (PaginatedResult LicenseResponse)
    list query = do
      result ← run (list_licenses ports.env query)
      let summaries = get_customer_summaries result.items
      items ← lift (list_responses to_iso_string summaries result.items)
      pure (record {
        items = items;
        page = result.page;
        page_size = result.page_size;
        total = result.total;
        total_pages = result.total_pages;
      })
