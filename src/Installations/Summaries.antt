-- ===== src/Installations/Summaries.antt =====
-- application/ports/customer-summary-reader.port.ts and license-summary-reader.port.ts with the use
-- cases over them: what the other contexts show of themselves beside an installation.
use pos_cloud.Common.{Option, List, [], ◌∷◌}
use pos_cloud.Common.Text.{Text}
use pos_cloud.Common.JsMap.{JsMap}

pub record CustomerDisplaySummary : Type 0 where
  pub id : Text
  pub code : Text
  pub legal_name : Text
  pub trade_name : Option Text

pub record LicenseDisplaySummary : Type 0 where
  pub id : Text
  pub license_number : Text
  pub edition : Text
  pub status : Text

pub record SummaryPorts : Type 0 where
  pub find_customers : List Text → JsMap CustomerDisplaySummary
  pub find_licenses : List Text → JsMap LicenseDisplaySummary

-- `GetCustomerSummariesUseCase.execute`
unfoldable pub get_customer_summaries : SummaryPorts → List Text → JsMap CustomerDisplaySummary
get_customer_summaries ports [] = []
get_customer_summaries ports (id ∷ ids) = ports.find_customers (id ∷ ids)

-- `GetLicenseSummariesUseCase.execute`
unfoldable pub get_license_summaries : SummaryPorts → List Text → JsMap LicenseDisplaySummary
get_license_summaries ports [] = []
get_license_summaries ports (id ∷ ids) = ports.find_licenses (id ∷ ids)
