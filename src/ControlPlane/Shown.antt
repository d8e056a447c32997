-- ===== src/ControlPlane/Shown.antt =====
-- An installation that is answered with its stored customer and its stored license.
use pos_cloud.Common.{
  ℕ, ◌≡◌, refl, ◌∙◌, sym, ap, subst, inl, inr, true, some, List, [], ◌∷◌, Result, ok, err, arith,
  Option-cases,
}
use mathlib.Core.List.{map}
use pos_cloud.Common.Text.{Text, ===_refl}
use pos_cloud.Common.JsMap.{JsMap, get}
use pos_cloud.Common.JsMap.Summaries.{contains, distinct, contains-distinct}
use pos_cloud.Kernel.{World}
use pos_cloud.CustomerManagement.Customer.{Customer}
use pos_cloud.Installations.Errors.{InstallationError}
use pos_cloud.Installations.Installation.{Installation}
use pos_cloud.Installations.Store
use pos_cloud.Installations.Responses.{InstallationResponse, from_domain}
use pos_cloud.Installations.Controller.{
  ControllerError, of_use_case, get_relation_summaries, require_summary, respond,
}
use pos_cloud.Installations.Summaries.{CustomerDisplaySummary, LicenseDisplaySummary}
use pos_cloud.Licensing.License.{License}
use pos_cloud.ControlPlane.Adapters.{Platform, Settings, installation_ports}
use pos_cloud.ControlPlane.Summaries.{
  customer_display, license_display, summary_ports, customer_summary_found, license_summary_found,
}
use pos_cloud.ControlPlane.Capacity.{Owns, IsSound}

contains-distinct_one :
    (f : Installation → Text) (i : Installation) → contains (distinct (map f (i ∷ []))) (f i) ≡ true
contains-distinct_one f i = contains-distinct (map f (i ∷ [])) (f i) (rw (===_refl (f i)) refl)

module _ (p : Platform) where
  -- The stored customer and the stored license of an installation.
  pub record Relates (i : Installation) : Type 0 where
    pub customer : Customer
    pub license : License
    pub stored_customer : get i.customer_id p.customers.db.customers ≡ some customer
    pub stored_license : get i.license_id p.licenses.db.licenses ≡ some license
    pub owner : license.customer_id ≡ i.customer_id

module _ (settings : Settings) (p : Platform) where
  pub owned-Relates :
      (i : Installation)
      → IsSound settings p
      → Owns p.licenses.db.licenses i.license_id i.customer_id
      → Relates p i
  owned-Relates i h (l, stored_l, owner) =
      elim (Option-cases (get i.customer_id p.customers.db.customers)) [
        | inl missing ↦ absurd (
            (h.licenses.good i.license_id l stored_l).1
              (ap (λ x. get x p.customers.db.customers) owner ∙ missing))
        | inr (c, stored_c) ↦ record {
          customer = c;
          license = l;
          stored_customer = stored_c;
          stored_license = stored_l;
          owner = owner;
        }
      ]

module _ (to_iso_string : ℕ → Text) (settings : Settings) (p : Platform) where
  -- The response to a request about an installation shows its stored customer and its stored
  -- license, which is of that customer.
  pub record IsShown (i : Installation) (r : Result ControllerError InstallationResponse)
      : Type 0 where
    pub related : Relates p i
    pub response :
        r
        ≡ ok (
            from_domain to_iso_string i
              (customer_display related.customer)
              (license_display related.license))

  -- What follows on an outcome of a use case: its error, and its state, are passed on, and an
  -- installation is shown.
  abbrev pub Follows :
      Result InstallationError Installation × World Store.Db
      → Result ControllerError InstallationResponse × World Store.Db
      → Type 0
  Follows (err f, w') o = o ≡ (err (of_use_case f), w')
  Follows (ok i, w') o = (o.1 ≡ w') × IsShown i o.0

  abbrev pub shows :
      Installation → World Store.Db → Result ControllerError InstallationResponse × World Store.Db
  shows = respond to_iso_string (installation_ports settings p) (summary_ports p)

  abbrev related : List Installation → JsMap CustomerDisplaySummary × JsMap LicenseDisplaySummary
  related = get_relation_summaries (summary_ports p)

  respond_found :
      (i : Installation) (w : World Store.Db) (c : CustomerDisplaySummary)
      (l : LicenseDisplaySummary)
      → get i.customer_id (related (i ∷ [])).0 ≡ some c
      → get i.license_id (related (i ∷ [])).1 ≡ some l
      → shows i w ≡ (ok (from_domain to_iso_string i c l), w)
  unfolding respond require_summary
  respond_found i w c l found_c found_l = ground arith

  respond_shows :
      (i : Installation) (w : World Store.Db) (c : Customer) (l : License)
      → IsSound settings p
      → get i.customer_id p.customers.db.customers ≡ some c
      → get i.license_id p.licenses.db.licenses ≡ some l
      → shows i w ≡ (ok (from_domain to_iso_string i (customer_display c) (license_display l)), w)
  unfolding get_relation_summaries
  respond_shows i w c l h found_c found_l =
      respond_found i w (customer_display c) (license_display l)
        (customer_summary_found p _ i.customer_id c h.customers.keyed
          (contains-distinct_one (λ (v : Installation). v.customer_id) i) found_c)
        (license_summary_found p _ i.license_id l h.licenses.keyed
          (contains-distinct_one (λ (v : Installation). v.license_id) i) found_l)

  -- An installation of a stored license of its customer is shown.
  pub owned_shows :
      (i : Installation) (w : World Store.Db)
      → IsSound settings p
      → Owns p.licenses.db.licenses i.license_id i.customer_id
      → Follows (ok i, w) (shows i w)
  owned_shows i w h own =
      let r = owned-Relates settings p i h own in
      subst (Follows (ok i, w))
        (sym (respond_shows i w r.customer r.license h r.stored_customer r.stored_license))
        (refl, record { related = r; response = refl })
