-- ===== src/Installations/Controller.antt =====
-- presentation/http/installation.controller.ts. What `Date.toISOString` and the summaries of the
-- other contexts answer are parameters.
use pos_cloud.Common.{
  ℕ, Option, none, some, List, [], ◌∷◌, Result, ok, err, Action, ◌>>=◌, pure, or_throw, lift,
  and_then,
}
use mathlib.Core.List.{map}
use pos_cloud.Common.Text.{Text, text}
use pos_cloud.Common.JsMap.{JsMap, get}
use pos_cloud.Common.JsMap.Summaries.{distinct}
use pos_cloud.Kernel.{World, AuditActorContext, admin}
use pos_cloud.Installations.Status.{InstallationStatus, initial, recovery}
use pos_cloud.Installations.Errors.{InstallationError, installation_not_found}
use pos_cloud.Installations.Installation.{Installation}
use pos_cloud.Installations.Store.{Db, Ports, M, find_installation}
use pos_cloud.Installations.Create.{CreateInstallationCommand, create_installation}
use pos_cloud.Installations.Issue.{issue_installation_enrollment}
use pos_cloud.Installations.Admin.{change_installation_status, revoke_installation_credential}
use pos_cloud.Installations.Health.{InstallationHealthThresholds, get_installation_health}
use pos_cloud.Installations.Listing.{
  ListInstallationsQuery, InstallationListItemWithHealth, list_installations,
}
use pos_cloud.Installations.Responses.{
  InstallationResponse, InstallationHealthResponse, InstallationListItemResponse,
  IssueEnrollmentResponse, from_domain, from_detail, from_list_item, enrollment_response,
}
use pos_cloud.Pagination.{PaginatedResult}
use pos_cloud.Installations.Summaries.{
  CustomerDisplaySummary, LicenseDisplaySummary, SummaryPorts, get_customer_summaries,
  get_license_summaries,
}

-- What a handler throws: the error of a use case, or the plain `Error` of a missing summary.
pub data ControllerError : Type 0 where
  of_use_case : InstallationError → ControllerError
  summary_missing : Text → ControllerError

abbrev pub Handler : Type 0 → Type 0
Handler A = Action (World Db) ControllerError A

-- the principal and the request, as far as the audit trail takes from them
pub record CurrentAdmin : Type 0 where
  pub admin_user_id : Text
  pub request_id : Option Text

abbrev pub correlation_of : Option Text → Text
correlation_of none = text "unknown"
correlation_of (some id) = id

unfoldable pub build_admin_audit_actor : CurrentAdmin → AuditActorContext
build_admin_audit_actor caller = record {
  actor_type = admin;
  actor_id = some caller.admin_user_id;
  correlation_id = correlation_of caller.request_id;
}

abbrev pub as_response : {A : Type 0} → Result InstallationError A → Result ControllerError A
as_response (ok a) = ok a
as_response (err e) = err (of_use_case e)

-- `await useCase.execute(…)`, whose errors pass through
abbrev pub run : {A : Type 0} → M A → Handler A
run m w = let (r, w') = m w in (as_response r, w')

-- `requireSummary`
unfoldable pub require_summary : {D : Type 0} → JsMap D → Text → Text → Result ControllerError D
require_summary m id label = elim (get id m) [ none ↦ err (summary_missing label) | some s ↦ ok s ]

-- `GetInstallationByIdUseCase.execute`
unfoldable pub get_installation_by_id : Text → M (Option Installation)
get_installation_by_id id = find_installation id

-- `getRelationSummaries`
unfoldable pub get_relation_summaries :
    SummaryPorts → List Installation → JsMap CustomerDisplaySummary × JsMap LicenseDisplaySummary
get_relation_summaries summaries installations = (
  get_customer_summaries summaries
      (distinct (map (λ (i : Installation). i.customer_id) installations)),
  get_license_summaries summaries
      (distinct (map (λ (i : Installation). i.license_id) installations)),
)

module _ (to_iso_string : ℕ → Text) where
  -- the items of the response of `list`, with the summaries of the page
  unfoldable pub list_item_response :
      JsMap CustomerDisplaySummary
      → JsMap LicenseDisplaySummary
      → InstallationListItemWithHealth
      → Result ControllerError InstallationListItemResponse
  list_item_response customers licenses item =
      and_then (require_summary customers item.installation.customer_id (text "Customer"))
        λ customer.
          and_then (require_summary licenses item.installation.license_id (text "License"))
            λ license. ok (from_list_item to_iso_string item customer license)

  unfoldable pub list_item_responses :
      JsMap CustomerDisplaySummary
      → JsMap LicenseDisplaySummary
      → List InstallationListItemWithHealth
      → Result ControllerError (List InstallationListItemResponse)
  list_item_responses customers licenses [] = ok []
  list_item_responses customers licenses (item ∷ items) =
      and_then (list_item_response customers licenses item) λ response.
        and_then (list_item_responses customers licenses items) λ rest. ok (response ∷ rest)

  module _ (ports : Ports) (summaries : SummaryPorts) where
    -- the end of `create`, `getById` and `changeStatus`
    unfoldable pub respond : Installation → Handler InstallationResponse
    respond i = do
      let (customers, licenses) = get_relation_summaries summaries (i ∷ [])
      customer ← lift (require_summary customers i.customer_id (text "Customer"))
      license ← lift (require_summary licenses i.license_id (text "License"))
      pure (from_domain to_iso_string i customer license)

    unfoldable pub create : CreateInstallationCommand → CurrentAdmin → Handler InstallationResponse
    create body caller = do
      i ← run (create_installation ports body (build_admin_audit_actor caller))
      respond i

    unfoldable pub get_by_id : Text → Handler InstallationResponse
    get_by_id id = do
      found ← run (get_installation_by_id id)
      i ← or_throw found (of_use_case installation_not_found)
      respond i

    unfoldable pub get_health :
        InstallationHealthThresholds → Text → Handler InstallationHealthResponse
    get_health config id = do
      found ← run (get_installation_health ports config id)
      detail ← or_throw found (of_use_case installation_not_found)
      pure (from_detail to_iso_string detail)

    unfoldable pub list :
        InstallationHealthThresholds
        → ListInstallationsQuery
        → Handler (PaginatedResult InstallationListItemResponse)
    list config query = do
      result ← run (list_installations ports.env config query)
      let (customers, licenses) =
          get_relation_summaries summaries
            (map (λ (item : InstallationListItemWithHealth). item.installation) result.items)
      items ← lift (list_item_responses customers licenses result.items)
      pure (record {
        items = items;
        page = result.page;
        page_size = result.page_size;
        total = result.total;
        total_pages = result.total_pages;
      })

    unfoldable pub change_status :
        Text → InstallationStatus → CurrentAdmin → Handler InstallationResponse
    change_status id status caller = do
      i ← run (change_installation_status ports id status (build_admin_audit_actor caller))
      respond i

    unfoldable pub issue_initial_enrollment : Text → CurrentAdmin → Handler IssueEnrollmentResponse
    issue_initial_enrollment id caller = do
      result ← run (
          issue_installation_enrollment ports (record { installation_id = id; purpose = initial })
            (build_admin_audit_actor caller))
      pure (enrollment_response to_iso_string result)

    unfoldable pub issue_recovery_enrollment : Text → CurrentAdmin → Handler IssueEnrollmentResponse
    issue_recovery_enrollment id caller = do
      result ← run (
          issue_installation_enrollment ports (record { installation_id = id; purpose = recovery })
            (build_admin_audit_actor caller))
      pure (enrollment_response to_iso_string result)

    unfoldable pub revoke_credential : Text → CurrentAdmin → Handler (Unit {0})
    revoke_credential id caller =
        run (revoke_installation_credential ports id (build_admin_audit_actor caller))
