-- ===== src/Installations/Auth/Outcome.antt =====
-- Who passes the guard.
use pos_cloud.Common.{
  ◌≡◌, inl, inr, Bool, true, Option, some, arith, ap, ◌∙◌, Option-cases, Result, ok, err, ◌↔◌,
}
use pos_cloud.Common.Text.{Text}
use pos_cloud.Common.JsMap.{get}
use pos_cloud.Kernel.{Env, World}
use pos_cloud.Installations.Status.{pending, active, suspended, decommissioned}
use pos_cloud.Installations.Errors.{
  InstallationError, installation_credential_invalid, installation_suspended,
  installation_decommissioned,
}
use pos_cloud.Installations.Installation.{Installation}
use pos_cloud.Installations.Credential.{InstallationCredential}
use pos_cloud.Installations.Secrets.{secret_matches_hash}
use pos_cloud.Installations.Token.{OpaqueToken, parse_opaque_token}
use pos_cloud.Installations.Store.{Db, is_active}
use pos_cloud.Installations.Auth.{extract_bearer_token, admit, verify_credential, can_activate}

module _ (env : Env) (is_uuid : Text → Bool) where
  -- The credential that a header carries, and the installation that it belongs to.
  pub record IsAuthenticated (header : Option Text) (db : Db) (i : Installation) : Type 0 where
    pub token : Text
    pub extracted : extract_bearer_token header ≡ some token
    pub parsed : OpaqueToken
    pub parses : parse_opaque_token token ≡ some parsed
    pub uuid : is_uuid parsed.id ≡ true
    pub credential : InstallationCredential
    pub found_credential : get parsed.id db.credentials ≡ some credential
    pub alive : is_active credential ≡ true
    pub matches : secret_matches_hash env parsed.secret credential.secret_hash ≡ true
    pub found_installation : get credential.installation_id db.installations ≡ some i

  -- What the guard answers for the status of the installation.
  abbrev pub admitted : Installation → Result InstallationError (Option Text)
  admitted i = elim i.status [
    | pending ↦ err installation_credential_invalid
    | active ↦ ok (some i.id)
    | suspended ↦ err installation_suspended
    | decommissioned ↦ err installation_decommissioned
  ]

  pub can_activate_complete :
      (header : Option Text) (w : World Db) (i : Installation)
      → IsAuthenticated header w.db i
      → can_activate env is_uuid true header w ≡ (admitted i, w)
  unfolding can_activate verify_credential admit
  can_activate_complete header w i h = ground arith

  module _ (header : Option Text) (w : World Db) (x : Text) where
    passed_checks :
        (token : Text) (p : OpaqueToken) (c : InstallationCredential) (i : Installation)
        → extract_bearer_token header ≡ some token
        → parse_opaque_token token ≡ some p
        → get p.id w.db.credentials ≡ some c
        → get c.installation_id w.db.installations ≡ some i
        → (can_activate env is_uuid true header w).0 ≡ ok (some x)
        → (is_uuid p.id ≡ true)
          × (is_active c ≡ true)
          × (secret_matches_hash env p.secret c.secret_hash ≡ true)
          × (i.status ≡ active)
          × (i.id ≡ x)
    unfolding can_activate verify_credential admit
    passed_checks token p c i a b d e h = ground arith

    -- A header that passes carries an unrevoked credential whose secret matches the
    -- stored hash, of an installation that is active and is the one that the request is given.
    pub can_activate_sound :
        (can_activate env is_uuid true header w).0 ≡ ok (some x)
        → (i : Installation) × IsAuthenticated header w.db i × (i.status ≡ active) × (i.id ≡ x)
    unfolding can_activate verify_credential
    can_activate_sound h = elim (Option-cases (extract_bearer_token header)) [
      | inl a ↦ absurd (ground arith)
      | inr (token, a) ↦ elim (Option-cases (parse_opaque_token token)) [
        | inl b ↦ absurd (ground arith)
        | inr (p, b) ↦ elim (Option-cases (get p.id w.db.credentials)) [
          | inl d ↦ absurd (ground arith)
          | inr (c, d) ↦ elim (Option-cases (get c.installation_id w.db.installations)) [
            | inl e ↦ absurd (ground arith)
            | inr (i, e) ↦
                let (u, v, m, status, same) = passed_checks token p c i a b d e h in
                (
                  i,
                  record {
                    token = token;
                    extracted = a;
                    parsed = p;
                    parses = b;
                    uuid = u;
                    credential = c;
                    found_credential = d;
                    alive = v;
                    matches = m;
                    found_installation = e;
                  },
                  status,
                  same,
                )
          ]
        ]
      ]
    ]

    -- A guarded route lets a request in as installation x, changing nothing, exactly if its header
    -- carries the token of a stored credential with the form of a UUID, not revoked, whose hash
    -- the secret of the token matches, and the installation of the credential is there, active and x.
    pub can_activate_iff :
        ((can_activate env is_uuid true header w) ≡ (ok (some x), w))
        ↔ ((i : Installation) × IsAuthenticated header w.db i × (i.status ≡ active) × (i.id ≡ x))
    can_activate_iff = (
      λ h. can_activate_sound (ap (λ r. r.0) h),
      λ (i, q, status, same). can_activate_complete header w i q ∙ ground arith,
    )
