-- ===== src/ControlPlane/Adapters.antt =====
-- apps/api/src/control-plane/adapters/customer-reader.adapter.ts and license-reader.adapter.ts:
-- the ports of licensing and of installations, answered by the use cases of the other contexts.
use pos_cloud.Common.{
  ℕ, ◌≡◌, true, inl, inr, Option, none, some, Result, ok, err, arith, Option-cases,
}
use pos_cloud.Common.Text.{Text}
use pos_cloud.Common.JsMap.{get}
use pos_cloud.Kernel.{Env, World}
use pos_cloud.CustomerManagement.Status.{active, same_status}
use pos_cloud.CustomerManagement.Customer.{Customer}
use pos_cloud.CustomerManagement.UseCases as Customers
use pos_cloud.CustomerManagement.UseCases.{get_customer_by_id}
use pos_cloud.Installations.Store
use pos_cloud.Installations.Store.{CustomerSummary, LicenseSummary}
use pos_cloud.Licensing.License.{License, is_usable}
use pos_cloud.Licensing.UseCases as Licenses
use pos_cloud.Licensing.UseCases.{get_license_summary}

-- The three contexts, each with its store. Each reads the clock and draws ids on its own.
pub record Platform : Type 0 where
  pub customers : World Customers.Db
  pub licenses : World Licenses.Db
  pub installations : World Store.Db

pub record Settings : Type 0 where
  pub customers : Env
  pub licenses : Env
  pub installations : Env
  pub enrollment_code_ttl_seconds : ℕ

abbrev pub summary_of : Option Customer → Option CustomerSummary
summary_of none = none
summary_of (some c) = some (record { id = c.id; active = same_status c.status active })

-- what an awaited query answers; none of these queries throws
abbrev pub answer : {S E A : Type 0} → Result E (Option A) × S → Option A
answer (ok o, s) = o
answer (err e, s) = none

-- `CustomerReaderAdapter.findCustomerSummary`
unfoldable pub read_customer : World Customers.Db → Text → Option CustomerSummary
unfolding same_status
read_customer customers customer_id = summary_of (answer (get_customer_by_id customer_id customers))

abbrev pub license_ports : Settings → Platform → Licenses.Ports
license_ports settings p = record {
  env = settings.licenses;
  find_customer_summary = read_customer p.customers;
}

-- `LicenseReaderAdapter.findLicenseSummary`, at the next reading of the clock
unfoldable pub read_license : Settings → Platform → Text → Option LicenseSummary
read_license settings p license_id =
    answer (get_license_summary (license_ports settings p) license_id p.licenses)

abbrev pub installation_ports : Settings → Platform → Store.Ports
installation_ports settings p = record {
  env = settings.installations;
  find_customer_summary = read_customer p.customers;
  find_license_summary = read_license settings p;
  enrollment_code_ttl_seconds = settings.enrollment_code_ttl_seconds;
}

-- What the adapters answer is what the stores hold.
pub read_customer_sound :
    (w : World Customers.Db) (x : Text) (s : CustomerSummary)
    → read_customer w x ≡ some s
    → s.active ≡ true
    → (c : Customer) × (get x w.db.customers ≡ some c) × (c.status ≡ active)
unfolding read_customer get_customer_by_id
read_customer_sound w x s h a = elim (Option-cases (get x w.db.customers)) [
  | inl missing ↦ absurd (ground arith)
  | inr (c, found) ↦ (c, found, ground arith)
]

pub read_customer_missing :
    (w : World Customers.Db) (x : Text) → get x w.db.customers ≡ none → read_customer w x ≡ none
unfolding read_customer get_customer_by_id
read_customer_missing w x h = ground arith

pub read_license_sound :
    (settings : Settings) (p : Platform) (x : Text) (s : LicenseSummary)
    → read_license settings p x ≡ some s
    → (l : License) × (get x p.licenses.db.licenses ≡ some l)
      × (s.customer_id ≡ l.customer_id)
      × (s.max_installations ≡ l.max_installations)
      × (s.usable ≡ is_usable (settings.licenses.clock p.licenses.ticks) l)
unfolding read_license get_license_summary
read_license_sound settings p x s h = elim (Option-cases (get x p.licenses.db.licenses)) [
  | inl missing ↦ absurd (ground arith)
  | inr (l, found) ↦ (l, found, ground arith, ground arith, ground arith)
]
