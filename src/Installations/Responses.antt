-- ===== src/Installations/Responses.antt =====
-- The response classes of presentation/http/dto and what fills them. `Date.toISOString` is a
-- parameter.
use pos_cloud.Common.{ℕ, Option}
use mathlib.Core.Option as O
use pos_cloud.Common.Text.{Text}
use pos_cloud.Installations.Status.{InstallationStatus, InstallationHealthStatus, Platform}
use pos_cloud.Installations.Installation.{Installation}
use pos_cloud.Installations.Issue.{IssueInstallationEnrollmentResult}
use pos_cloud.Installations.Health.{InstallationHealthDetail}
use pos_cloud.Installations.Listing.{InstallationListItemWithHealth}
use pos_cloud.Installations.Summaries.{CustomerDisplaySummary, LicenseDisplaySummary}

pub record CustomerSummaryResponse : Type 0 where
  pub id : Text
  pub code : Text
  pub legal_name : Text
  pub trade_name : Option Text

pub record LicenseSummaryResponse : Type 0 where
  pub id : Text
  pub license_number : Text
  pub edition : Text
  pub status : Text

pub record InstallationResponse : Type 0 where
  pub id : Text
  pub customer_id : Text
  pub customer : CustomerSummaryResponse
  pub license_id : Text
  pub license : LicenseSummaryResponse
  pub installation_code : Text
  pub name : Text
  pub platform : Platform
  pub status : InstallationStatus
  pub registered_at : Option Text
  pub created_at : Text
  pub updated_at : Text

pub record InstallationHealthResponse : Type 0 where
  pub installation_id : Text
  pub lifecycle_status : InstallationStatus
  pub health_status : InstallationHealthStatus
  pub last_seen_at : Option Text
  pub first_seen_at : Option Text
  pub app_version : Option Text
  pub client_reported_at : Option Text

-- InstallationListItemResponseDto, which extends InstallationResponseDto
pub record InstallationListItemResponse : Type 0 where
  pub base : InstallationResponse
  pub health_status : InstallationHealthStatus
  pub last_seen_at : Option Text

pub record IssueEnrollmentResponse : Type 0 where
  pub installation_id : Text
  pub enrollment_code : Text
  pub expires_at : Text

abbrev pub customer_response : CustomerDisplaySummary → CustomerSummaryResponse
customer_response s = record {
  id = s.id;
  code = s.code;
  legal_name = s.legal_name;
  trade_name = s.trade_name;
}

abbrev pub license_response : LicenseDisplaySummary → LicenseSummaryResponse
license_response s = record {
  id = s.id;
  license_number = s.license_number;
  edition = s.edition;
  status = s.status;
}

module _ (to_iso_string : ℕ → Text) where
  -- `InstallationResponseDto.fromDomain`
  unfoldable pub from_domain :
      Installation → CustomerDisplaySummary → LicenseDisplaySummary → InstallationResponse
  from_domain i customer license = record {
    id = i.id;
    customer_id = i.customer_id;
    customer = customer_response customer;
    license_id = i.license_id;
    license = license_response license;
    installation_code = i.installation_code;
    name = i.name;
    platform = i.platform;
    status = i.status;
    registered_at = O.map to_iso_string i.registered_at;
    created_at = to_iso_string i.created_at;
    updated_at = to_iso_string i.updated_at;
  }

  -- `InstallationHealthResponseDto.fromDetail`
  unfoldable pub from_detail : InstallationHealthDetail → InstallationHealthResponse
  from_detail d = record {
    installation_id = d.installation_id;
    lifecycle_status = d.lifecycle_status;
    health_status = d.health_status;
    last_seen_at = O.map to_iso_string d.last_seen_at;
    first_seen_at = O.map to_iso_string d.first_seen_at;
    app_version = d.app_version;
    client_reported_at = O.map to_iso_string d.client_reported_at;
  }

  -- `InstallationListItemResponseDto.fromListItem`
  unfoldable pub from_list_item :
      InstallationListItemWithHealth
      → CustomerDisplaySummary
      → LicenseDisplaySummary
      → InstallationListItemResponse
  from_list_item item customer license = record {
    base = from_domain item.installation customer license;
    health_status = item.health_status;
    last_seen_at = O.map to_iso_string item.last_seen_at;
  }

  abbrev pub enrollment_response : IssueInstallationEnrollmentResult → IssueEnrollmentResponse
  enrollment_response r = record {
    installation_id = r.installation_id;
    enrollment_code = r.enrollment_code;
    expires_at = to_iso_string r.expires_at;
  }
