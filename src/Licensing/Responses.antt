-- ===== src/Licensing/Responses.antt =====
-- The response classes of presentation/http/dto and what fills them. `Date.toISOString` is a
-- parameter.
use pos_cloud.Common.{ℕ, Bool, Option, some, none, List, if◌then◌else◌}
use mathlib.Core.Option as O
use mathlib.Core.List.{map}
use pos_cloud.Common.Text.{Text}
use pos_cloud.Installations.Summaries.{CustomerDisplaySummary}
use pos_cloud.Licensing.Status.{LicenseStatus, LicenseEdition, LicenseModel}
use pos_cloud.Licensing.License.{License, LicenseEntitlement, Configuration}

pub record CustomerSummaryResponse : Type 0 where
  pub id : Text
  pub code : Text
  pub legal_name : Text
  pub trade_name : Option Text

pub record EntitlementResponse : Type 0 where
  pub id : Text
  pub code : Text
  pub enabled : Bool
  pub configuration : Option Configuration
  pub created_at : Text
  pub updated_at : Text

pub record LicenseResponse : Type 0 where
  pub id : Text
  pub customer_id : Text
  pub customer : CustomerSummaryResponse
  pub license_number : Text
  pub edition : LicenseEdition
  pub license_model : LicenseModel
  pub status : LicenseStatus
  pub valid_from : Text
  pub valid_until : Option Text
  pub max_installations : ℕ
  pub created_at : Text
  pub updated_at : Text
  pub entitlements : Option (List EntitlementResponse)

-- `CustomerSummaryResponseDto.fromSummary`
abbrev pub customer_response : CustomerDisplaySummary → CustomerSummaryResponse
customer_response s = record {
  id = s.id;
  code = s.code;
  legal_name = s.legal_name;
  trade_name = s.trade_name;
}

module _ (to_iso_string : ℕ → Text) where
  -- `EntitlementResponseDto.fromDomain`
  abbrev pub entitlement_response : LicenseEntitlement → EntitlementResponse
  entitlement_response e = record {
    id = e.id;
    code = e.code;
    enabled = e.enabled;
    configuration = e.configuration;
    created_at = to_iso_string e.created_at;
    updated_at = to_iso_string e.updated_at;
  }

  -- `LicenseResponseDto.fromDomain`
  unfoldable pub from_domain : License → CustomerDisplaySummary → Bool → LicenseResponse
  from_domain l customer include_entitlements = record {
    id = l.id;
    customer_id = l.customer_id;
    customer = customer_response customer;
    license_number = l.license_number;
    edition = l.edition;
    license_model = l.license_model;
    status = l.status;
    valid_from = to_iso_string l.valid_from;
    valid_until = O.map to_iso_string l.valid_until;
    max_installations = l.max_installations;
    created_at = to_iso_string l.created_at;
    updated_at = to_iso_string l.updated_at;
    entitlements =
        if include_entitlements then some (map entitlement_response l.entitlements) else none;
  }
