-- ===== src/ControlPlane/Summaries.antt =====
-- apps/api/src/control-plane/adapters/customer-summary-reader.adapter.ts and
-- license-summary-reader.adapter.ts: what customers and licensing show beside an installation.
use pos_cloud.Common.{◌≡◌, true, inl, some, List, [], ◌∷◌, Result, ok, err}
use pos_cloud.Common.Text.{Text}
use pos_cloud.Common.JsMap.{JsMap, get}
use pos_cloud.Common.JsMap.Laws.{IsKeyed}
use pos_cloud.Common.JsMap.Summaries.{contains, set_all, get-set_all}
use pos_cloud.Kernel.{World}
use pos_cloud.CustomerManagement.Customer.{Customer}
use pos_cloud.CustomerManagement.UseCases as Customers
use pos_cloud.CustomerManagement.UseCases.{get_customers_by_ids}
use pos_cloud.Installations.Summaries.{
  CustomerDisplaySummary, LicenseDisplaySummary, SummaryPorts, get_customer_summaries,
  get_license_summaries,
}
use pos_cloud.Licensing.Status.{edition_text, status_text}
use pos_cloud.Licensing.License.{License}
use pos_cloud.Licensing.UseCases as Licenses
use pos_cloud.Licensing.UseCases.{get_licenses_by_ids}
use pos_cloud.ControlPlane.Adapters.{Platform}

abbrev pub customer_display : Customer → CustomerDisplaySummary
customer_display c = record {
  id = c.id;
  code = c.code;
  legal_name = c.legal_name;
  trade_name = c.trade_name;
}

abbrev pub license_display : License → LicenseDisplaySummary
license_display l = record {
  id = l.id;
  license_number = l.license_number;
  edition = edition_text l.edition;
  status = status_text l.status;
}

-- what an awaited query of rows answers; neither query throws
abbrev pub rows : {S E V : Type 0} → Result E (List V) × S → List V
rows (ok vs, s) = vs
rows (err e, s) = []

-- `CustomerSummaryReaderAdapter.findByIds`
unfoldable pub find_customer_displays :
    World Customers.Db → List Text → JsMap CustomerDisplaySummary
find_customer_displays w ids =
    set_all (λ (c : Customer). c.id) customer_display (rows (get_customers_by_ids ids w)) []

-- `LicenseSummaryReaderAdapter.findByIds`
unfoldable pub find_license_displays : World Licenses.Db → List Text → JsMap LicenseDisplaySummary
find_license_displays w ids =
    set_all (λ (l : License). l.id) license_display (rows (get_licenses_by_ids ids w)) []

abbrev pub summary_ports : Platform → SummaryPorts
summary_ports p = record {
  find_customers = find_customer_displays p.customers;
  find_licenses = find_license_displays p.licenses;
}

-- The summary of a stored row that is asked for is found under its id.
pub customer_summary_found :
    (p : Platform) (ids : List Text) (x : Text) (c : Customer)
    → IsKeyed (λ (v : Customer). v.id) p.customers.db.customers
    → contains ids x ≡ true
    → get x p.customers.db.customers ≡ some c
    → get x (get_customer_summaries (summary_ports p) ids) ≡ some (customer_display c)
unfolding get_customer_summaries find_customer_displays get_customers_by_ids
customer_summary_found p [] x c keyed asked found = absurd (cc asked)
customer_summary_found p (id ∷ ids) x c keyed asked found =
    get-set_all (λ (v : Customer). v.id) customer_display (id ∷ ids) p.customers.db.customers [] x c
      keyed found (inl asked)

pub license_summary_found :
    (p : Platform) (ids : List Text) (x : Text) (l : License)
    → IsKeyed (λ (v : License). v.id) p.licenses.db.licenses
    → contains ids x ≡ true
    → get x p.licenses.db.licenses ≡ some l
    → get x (get_license_summaries (summary_ports p) ids) ≡ some (license_display l)
unfolding get_license_summaries find_license_displays get_licenses_by_ids
license_summary_found p [] x l keyed asked found = absurd (cc asked)
license_summary_found p (id ∷ ids) x l keyed asked found =
    get-set_all (λ (v : License). v.id) license_display (id ∷ ids) p.licenses.db.licenses [] x l
      keyed found (inl asked)
