-- ===== src/ControlPlane/Calls.antt =====
-- Any sequence of calls of the three contexts.
use pos_cloud.Common.{List, [], ◌∷◌}
use pos_cloud.CustomerManagement.UseCases.Calls as CustomerCalls
use pos_cloud.Installations.Calls as InstallationCalls
use pos_cloud.Licensing.UseCases.Calls as LicenseCalls
use pos_cloud.ControlPlane.Adapters.{Platform, Settings, license_ports, installation_ports}

pub data Call : Type 0 where
  of_customers : CustomerCalls.Call → Call
  of_licenses : LicenseCalls.Call → Call
  of_installations : InstallationCalls.Call → Call

-- A call writes the store of its context; what it asks of the others is answered as they are.
unfoldable pub serve : Settings → Call → Platform → Platform
serve settings (of_customers call) p = record p {
  customers = CustomerCalls.serve settings.customers call p.customers;
}
serve settings (of_licenses call) p = record p {
  licenses = LicenseCalls.serve (license_ports settings p) call p.licenses;
}
serve settings (of_installations call) p = record p {
  installations = InstallationCalls.serve (installation_ports settings p) call p.installations;
}

unfoldable pub serve_all : Settings → List Call → Platform → Platform
serve_all settings [] p = p
serve_all settings (call ∷ calls) p = serve_all settings calls (serve settings call p)
