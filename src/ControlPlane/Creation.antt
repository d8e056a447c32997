-- ===== src/ControlPlane/Creation.antt =====
-- Creating an installation over the stores of the other contexts.
use pos_cloud.Common.{◌≡◌, ◌≤◌, ◌<◌, ◌∙◌, sym, some, ok, subst}
use pos_cloud.Common.JsMap.{get, count}
use pos_cloud.Common.JsMap.Slots.{IsInjective}
use pos_cloud.Kernel.{World, AuditActorContext}
use pos_cloud.CustomerManagement.Status as CustomerStatus
use pos_cloud.CustomerManagement.Customer.{Customer}
use pos_cloud.Installations.Installation.{Installation}
use pos_cloud.Installations.Invariant.{IsValid}
use pos_cloud.Installations.Store
use pos_cloud.Installations.Store.{counts_for_license}
use pos_cloud.Installations.Create.{CreateInstallationCommand, create_installation}
use pos_cloud.Installations.Create.Outcome.{Creates, create-Creates}
use pos_cloud.Licensing.Status.{active}
use pos_cloud.Licensing.License.{License}
use pos_cloud.Licensing.License.WellFormed.{HasNotEnded, is_usable_iff}
use pos_cloud.ControlPlane.Adapters.{
  Platform, Settings, installation_ports, read_customer_sound, read_license_sound,
}

module _ (settings : Settings) (p : Platform) (command : CreateInstallationCommand) where
  -- What the stores of the other contexts hold when a creation succeeds.
  pub record IsEntitled : Type 0 where
    pub customer : Customer
    pub stored_customer : get command.customer_id p.customers.db.customers ≡ some customer
    pub active_customer : customer.status ≡ CustomerStatus.active
    pub license : License
    pub stored_license : get command.license_id p.licenses.db.licenses ≡ some license
    pub owner : license.customer_id ≡ command.customer_id
    pub active_license : license.status ≡ active
    pub begun : license.valid_from ≤ settings.licenses.clock p.licenses.ticks
    pub not_over : HasNotEnded (settings.licenses.clock p.licenses.ticks) license.valid_until
    pub room :
        count (counts_for_license command.license_id) p.installations.db.installations
        < license.max_installations

  module _ (actor : AuditActorContext) (i : Installation) (w' : World Store.Db) where
    created :
        IsInjective settings.installations.next_id
        → IsValid settings.installations.next_id p.installations.ids p.installations.db
        → create_installation (installation_ports settings p) command actor p.installations
          ≡ (ok i, w')
        → Creates (installation_ports settings p) command p.installations (ok i, w')
    created inj h call =
        subst (Creates (installation_ports settings p) command p.installations) call
          (create-Creates (installation_ports settings p) command p.installations actor inj h)

    -- An installation that is created, with the answers that customers and licensing give through
    -- the adapters, is of a stored ACTIVE customer and of a stored ACTIVE license of that customer
    -- whose dates include the time at which licensing was asked, and which had fewer installations
    -- in use than it allows.
    pub create-IsEntitled :
        IsInjective settings.installations.next_id
        → IsValid settings.installations.next_id p.installations.ids p.installations.db
        → create_installation (installation_ports settings p) command actor p.installations
          ≡ (ok i, w')
        → IsEntitled
    create-IsEntitled inj h call =
        let (s, code, allows, new, stored_i, more, whole, valid) = created inj h call in
        let (c, there, alive) =
          read_customer_sound p.customers command.customer_id allows.customer allows.found_customer
            allows.active in
        let (l, stored, owner, max, usable) =
          read_license_sound settings p command.license_id s allows.found_license in
        let (in_use, begun, open_end) =
          (is_usable_iff (settings.licenses.clock p.licenses.ticks) l).0
            (sym usable ∙ allows.usable) in
        record {
          customer = c;
          stored_customer = there;
          active_customer = alive;
          license = l;
          stored_license = stored;
          owner = sym owner ∙ allows.owner;
          active_license = in_use;
          begun = begun;
          not_over = open_end;
          room = rw (← max) allows.capacity;
        }
