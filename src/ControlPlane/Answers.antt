-- ===== src/ControlPlane/Answers.antt =====
-- What the installation controller answers over the stores of the three contexts.
use pos_cloud.Common.{
  ℕ, ◌⊎◌, ◌>>=◌, ◌≡◌, refl, ◌∙◌, ap, inl, inr, none, some, Result, ok, err, arith, Option-cases,
}
use pos_cloud.Common.Text.{Text}
use pos_cloud.Common.JsMap.{get}
use pos_cloud.Common.JsMap.Laws.{get-set_self}
use pos_cloud.Kernel.{World, AuditActorContext}
use pos_cloud.Installations.Status.{InstallationStatus}
use pos_cloud.Installations.Errors.{InstallationError, installation_not_found}
use pos_cloud.Installations.Installation.{Installation}
use pos_cloud.Installations.Store
use pos_cloud.Installations.Create.{CreateInstallationCommand, create_installation}
use pos_cloud.Installations.Create.Outcome.{Creates, create-Creates}
use pos_cloud.Installations.Admin.{change_installation_status}
use pos_cloud.Installations.Admin.Outcome.{Changes, change_status-Changes}
use pos_cloud.Installations.Calls.Capacity.{Fits, serve-Fits}
use pos_cloud.Installations.Calls as InstallationCalls
use pos_cloud.Installations.Controller
use pos_cloud.Installations.Responses.{InstallationResponse}
use pos_cloud.Installations.Controller.{
  ControllerError, run, of_use_case, CurrentAdmin, build_admin_audit_actor, get_relation_summaries,
  require_summary, respond, get_by_id, get_installation_by_id,
}
use pos_cloud.ControlPlane.Adapters.{Platform, Settings, installation_ports}
use pos_cloud.ControlPlane.Summaries.{summary_ports}
use pos_cloud.ControlPlane.Capacity.{allowed, Owns, IsSound, HasIds, adapters-IsWithin}
use pos_cloud.ControlPlane.Shown.{Follows, IsShown, owned_shows, shows}

-- the requests that are answered with an installation
pub data Request : Type 0 where
  creates : CreateInstallationCommand → CurrentAdmin → Request
  gets : Text → Request
  changes_status : Text → InstallationStatus → CurrentAdmin → Request

module _ (to_iso_string : ℕ → Text) (settings : Settings) (p : Platform) where
  -- An installation that is created, or whose status is changed, is stored.
  abbrev IsStored : Result InstallationError Installation × World Store.Db → Type 0
  IsStored o = (i : Installation) → o.0 ≡ ok i → (k : Text) × (get k o.1.db.installations ≡ some i)

  -- A handler that shows to_iso_string settings p what a use case returns.
  abbrev shown :
      Result InstallationError Installation × World Store.Db
      → Result ControllerError InstallationResponse × World Store.Db
  shown o = (run (λ w. o) >>= shows to_iso_string settings p) p.installations

  shown-Follows :
      (o : Result InstallationError Installation × World Store.Db)
      → IsSound settings p
      → IsStored o
      → Fits (allowed p.licenses.db.licenses) (Owns p.licenses.db.licenses) o.1.db.installations
      → Follows to_iso_string settings p o (shown o)
  shown-Follows (ok i, w') h stored fits =
      let (k, found) = stored i refl in
      owned_shows to_iso_string settings p i w' h (fits.owned k i found)
  shown-Follows (err f, w') h stored fits = refl

  create-IsStored :
      (command : CreateInstallationCommand)
      (o : Result InstallationError Installation × World Store.Db)
      → Creates (installation_ports settings p) command p.installations o
      → IsStored o
  create-IsStored command (ok j, w') (l, code, allows, new, stored, more, whole, valid) i e =
      (j.id, cc (stored, e))
  create-IsStored command (err f, w') h i e = absurd (cc e)

  change-IsStored :
      (id : Text) (next : InstallationStatus) (actor : AuditActorContext)
      (o : Result InstallationError Installation × World Store.Db)
      → Changes (installation_ports settings p) id next actor p.installations o
      → IsStored o
  change-IsStored id next actor (ok j, w') (old, found, move, moved, whole, valid) i e = (
    id,
    ap (λ (d : Store.Db). get id d.installations) whole
        ∙ get-set_self id j p.installations.db.installations
        ∙ cc e,
  )
  change-IsStored id next actor (err f, w') h i e = absurd (cc e)

  abbrev pub handle : Request → Result ControllerError InstallationResponse × World Store.Db
  handle (creates body caller) =
      Controller.create to_iso_string (installation_ports settings p) (summary_ports p) body caller
        p.installations
  handle (gets id) =
      get_by_id to_iso_string (installation_ports settings p) (summary_ports p) id p.installations
  handle (changes_status id status caller) =
      Controller.change_status to_iso_string (installation_ports settings p) (summary_ports p) id
        status caller p.installations

  abbrev pub Answers :
      Request → Result ControllerError InstallationResponse × World Store.Db → Type 0
  Answers (creates body caller) o =
      Follows to_iso_string settings p
        (create_installation (installation_ports settings p) body (build_admin_audit_actor caller)
          p.installations)
        o
  Answers (gets id) o =
      (o.1 ≡ p.installations)
      × (((get id p.installations.db.installations ≡ none)
            × (o.0 ≡ err (of_use_case installation_not_found)))
          ⊎ ((i : Installation) × (get id p.installations.db.installations ≡ some i)
              × IsShown to_iso_string settings p i o.0))
  Answers (changes_status id status caller) o =
      Follows to_iso_string settings p
        (change_installation_status (installation_ports settings p) id status
          (build_admin_audit_actor caller) p.installations)
        o

  fits_after :
      (call : InstallationCalls.Call)
      → HasIds settings
      → IsSound settings p
      → Fits
          (allowed p.licenses.db.licenses)
          (Owns p.licenses.db.licenses)
          (InstallationCalls.serve
            (installation_ports settings p)
            call
            p.installations).db.installations
  fits_after call ids h =
      serve-Fits (allowed p.licenses.db.licenses) (Owns p.licenses.db.licenses)
        (installation_ports settings p) p.installations h.installations h.fits call
        ids.installations (adapters-IsWithin settings p)

  get_missing :
      (id : Text)
      → get id p.installations.db.installations ≡ none
      → handle (gets id) ≡ (err (of_use_case installation_not_found), p.installations)
  unfolding get_by_id get_installation_by_id
  get_missing id missing = ground arith

  get_there :
      (id : Text) (i : Installation)
      → get id p.installations.db.installations ≡ some i
      → handle (gets id) ≡ shows to_iso_string settings p i p.installations
  unfolding get_by_id get_installation_by_id
  get_there id i found = rw found refl

  -- Over sound stores, a request to create, to get or to change the status of an installation is
  -- answered with the installation, its stored customer and its stored license, or with the error
  -- of the use case, and leaves the state that the use case leaves. So no request
  -- ends because a summary is missing.
  pub handle-Answers :
      (request : Request) → HasIds settings → IsSound settings p → Answers request (handle request)
  unfolding Controller.create Controller.change_status InstallationCalls.serve
  handle-Answers (creates body caller) ids h =
      let actor = build_admin_audit_actor caller in
      let ports = installation_ports settings p in
      let o = create_installation ports body actor p.installations in
      shown-Follows o h
        (create-IsStored body o
          (create-Creates ports body p.installations actor ids.installations h.installations))
        (fits_after (InstallationCalls.creates body actor) ids h)
  handle-Answers (gets id) ids h = elim (Option-cases (get id p.installations.db.installations)) [
    | inl missing ↦ rw (get_missing id missing) (refl, inl (missing, refl))
    | inr (i, found) ↦
        let (same, shown_i) =
          owned_shows to_iso_string settings p i p.installations h (h.fits.owned id i found) in
        rw (get_there id i found) (same, inr (i, found, shown_i))
  ]
  handle-Answers (changes_status id status caller) ids h =
      let actor = build_admin_audit_actor caller in
      let ports = installation_ports settings p in
      let o = change_installation_status ports id status actor p.installations in
      shown-Follows o h
        (change-IsStored id status actor o
          (change_status-Changes ports id status actor p.installations h.installations))
        (fits_after (InstallationCalls.changes_status id status actor) ids h)
