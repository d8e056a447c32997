-- ===== src/AccessManagement/Refresh/Outcome.antt =====
-- What a refresh has done, by how it ended.
use pos_cloud.Common.{
  ℕ, suc, ◌+◌, ◌*◌, ◌<◌, ◌≡◌, refl, ◌≢◌, ◌⊎◌, inl, inr, true, false, none, some, arith, ap, subst,
  sym, ◌∙◌, Bool-cases, Option-cases, Result, ok, err, Result-cases,
}
use pos_cloud.Common.Text.{Text, ◌===◌, ===_iff}
use pos_cloud.Common.JsMap.{JsMap, get, set, count, map_values}
use pos_cloud.Common.JsMap.Laws.{get-set_self, get-set, count-map_values, key_of_get, IsKeyed}
use pos_cloud.Kernel.{World}
use pos_cloud.AccessManagement.Errors.{AdminError, invalid_refresh_token}
use pos_cloud.AccessManagement.AdminSession
use pos_cloud.AccessManagement.AdminSession.{AdminSession, is_revoked, is_expired}
use pos_cloud.AccessManagement.Store.{Db, Ports, is_active_of, revoke_if_active_of}
use pos_cloud.AccessManagement.Refresh.{
  RefreshAdminSessionResult, parse_raw_refresh_token, mitigate_replay, rotate, refresh_locked,
  finish, refresh_admin_session,
}

revoked_by_mitigation :
    (x : Text) (t : ℕ) (s : AdminSession) → is_active_of x (revoke_if_active_of x t s) ≡ false
unfolding revoke_if_active_of AdminSession.revoke
revoked_by_mitigation x t s = ground arith

-- A user has no active session after all are revoked.
pub revoke_all_clears :
    (x : Text) (t : ℕ) (m : JsMap AdminSession)
    → count (is_active_of x) (map_values (revoke_if_active_of x t) m) ≡ 0
revoke_all_clears x t m =
    count-map_values (is_active_of x) (revoke_if_active_of x t) m (revoked_by_mitigation x t)

module _ (ports : Ports) (raw : Text) (w : World Db) where
  abbrev started : ℕ
  started = ports.env.clock w.ticks

  -- The session that a token names, which holds the hash of the token's secret.
  pub record IsGenuine (s : AdminSession) : Type 0 where
    pub session_id : Text
    pub secret : Text
    pub parses : parse_raw_refresh_token raw ≡ ok (session_id, secret)
    pub found : get session_id w.db.sessions ≡ some s
    pub matches : ports.env.sha256_hex secret ≡ s.refresh_token_hash

  pub record IsRotated (s : AdminSession) (w' : World Db) (r : RefreshAdminSessionResult)
      : Type 0 where
    pub replacement : AdminSession
    pub fresh : r.session_id ≡ ports.env.next_id w.ids
    pub stored : get r.session_id w'.db.sessions ≡ some replacement
    pub owner : replacement.admin_user_id ≡ s.admin_user_id
    pub hashed : replacement.refresh_token_hash ≡ ports.env.sha256_hex r.secret
    pub expires : replacement.expires_at ≡ started + ports.refresh_token_ttl_seconds * 1000
    pub unrevoked : replacement.revoked_at ≡ none
    pub revoked :
        get s.id w'.db.sessions
        ≡ some (record s {
          revoked_at = some (ports.env.clock (suc (suc w.ticks)));
          replaced_by_session_id = some r.session_id;
        })
    pub others :
        (k : Text) → k ≢ s.id → k ≢ r.session_id → get k w'.db.sessions ≡ get k w.db.sessions

  abbrev pub Refreshes : Result AdminError RefreshAdminSessionResult × World Db → Type 0
  Refreshes (ok r, w') =
      (s : AdminSession) × IsGenuine s
      × (s.revoked_at ≡ none)
      × (started < s.expires_at)
      × IsRotated s w' r
  Refreshes (err f, w') =
      (f ≡ invalid_refresh_token)
      × ((w'.db ≡ w.db)
          ⊎ ((s : AdminSession) × IsGenuine s
              × (s.revoked_at ≢ none)
              × (w'.db ≡ record (w.db) {
                sessions = map_values (revoke_if_active_of s.admin_user_id started) w.db.sessions;
              })
              × (count (is_active_of s.admin_user_id) w'.db.sessions ≡ 0)))

  malformed :
      (f : AdminError)
      → parse_raw_refresh_token raw ≡ err f
      → (refresh_admin_session ports raw w ≡ (err f, w)) × (f ≡ invalid_refresh_token)
  unfolding refresh_admin_session parse_raw_refresh_token
  malformed f h = ground arith

  module _ (session_id secret : Text) where
    missing :
        parse_raw_refresh_token raw ≡ ok (session_id, secret)
        → get session_id w.db.sessions ≡ none
        → refresh_admin_session ports raw w ≡ (err invalid_refresh_token, w)
    unfolding refresh_admin_session refresh_locked
    missing h k = ground arith

    module _ (s : AdminSession) where
      guessed :
          parse_raw_refresh_token raw ≡ ok (session_id, secret)
          → get session_id w.db.sessions ≡ some s
          → (ports.env.sha256_hex secret === s.refresh_token_hash) ≡ false
          → refresh_admin_session ports raw w ≡ (err invalid_refresh_token, w)
      unfolding refresh_admin_session refresh_locked
      guessed h k l = ground arith

      expired :
          parse_raw_refresh_token raw ≡ ok (session_id, secret)
          → get session_id w.db.sessions ≡ some s
          → (ports.env.sha256_hex secret === s.refresh_token_hash) ≡ true
          → is_revoked s ≡ false
          → is_expired started s ≡ true
          → refresh_admin_session ports raw w
            ≡ (err invalid_refresh_token, record w { ticks = suc w.ticks })
      unfolding refresh_admin_session refresh_locked rotate
      expired h k l m n = ground arith

      pub replayed :
          parse_raw_refresh_token raw ≡ ok (session_id, secret)
          → get session_id w.db.sessions ≡ some s
          → (ports.env.sha256_hex secret === s.refresh_token_hash) ≡ true
          → is_revoked s ≡ true
          → refresh_admin_session ports raw w ≡ (
            err invalid_refresh_token,
            record w {
              ticks = suc w.ticks;
              db = record (w.db) {
                sessions = map_values (revoke_if_active_of s.admin_user_id started) w.db.sessions;
              };
            },
          )
      unfolding refresh_admin_session refresh_locked mitigate_replay finish
      replayed h k l m = ground arith

      abbrev replacement : AdminSession
      replacement = record {
        id = ports.env.next_id w.ids;
        admin_user_id = s.admin_user_id;
        refresh_token_hash = ports.env.sha256_hex (ports.env.next_secret w.secrets);
        expires_at = started + ports.refresh_token_ttl_seconds * 1000;
        revoked_at = none;
        replaced_by_session_id = none;
        created_at = ports.env.clock (suc w.ticks);
        last_used_at = ports.env.clock (suc w.ticks);
      }

      abbrev retired : AdminSession
      retired = record s {
        revoked_at = some (ports.env.clock (suc (suc w.ticks)));
        replaced_by_session_id = some (ports.env.next_id w.ids);
      }

      abbrev answer : RefreshAdminSessionResult
      answer = record {
        access_token =
            ports.issue_access_token (suc (suc (suc w.ticks))) s.admin_user_id
              (ports.env.next_id w.ids);
        expires_in_seconds = ports.access_token_ttl_seconds;
        session_id = ports.env.next_id w.ids;
        secret = ports.env.next_secret w.secrets;
      }

      abbrev after : World Db
      after = record w {
        ticks = suc (suc (suc w.ticks));
        ids = suc w.ids;
        secrets = suc w.secrets;
        db = record (w.db) {
          sessions = set s.id retired (set replacement.id replacement w.db.sessions);
        };
      }

      accepted :
          parse_raw_refresh_token raw ≡ ok (session_id, secret)
          → get session_id w.db.sessions ≡ some s
          → (ports.env.sha256_hex secret === s.refresh_token_hash) ≡ true
          → is_revoked s ≡ false
          → is_expired started s ≡ false
          → refresh_admin_session ports raw w ≡ (ok answer, after)
      unfolding refresh_admin_session refresh_locked rotate finish AdminSession.create
          AdminSession.revoke
      accepted h k l m n = ground arith

      after-IsRotated :
          get (ports.env.next_id w.ids) w.db.sessions ≡ none
          → get s.id w.db.sessions ≡ some s
          → IsRotated s after answer
      after-IsRotated new there = record {
        replacement = replacement;
        fresh = refl;
        stored = ground (
          arith,
          get-set replacement.id s.id retired (set replacement.id replacement w.db.sessions),
          get-set_self replacement.id replacement w.db.sessions,
          ===_iff replacement.id s.id,
          ap (λ k. get k w.db.sessions),
        );
        owner = refl;
        hashed = refl;
        expires = refl;
        unrevoked = refl;
        revoked = get-set_self s.id retired (set replacement.id replacement w.db.sessions);
        others = λ k a b. ground (
          arith,
          get-set k s.id retired (set replacement.id replacement w.db.sessions),
          get-set k replacement.id replacement w.db.sessions,
          ===_iff k s.id,
          ===_iff k replacement.id,
        );
      }

      -- A session that the token names, with the hash of its secret.
      genuine-Refreshes :
          get (ports.env.next_id w.ids) w.db.sessions ≡ none
          → IsKeyed (λ (v : AdminSession). v.id) w.db.sessions
          → parse_raw_refresh_token raw ≡ ok (session_id, secret)
          → get session_id w.db.sessions ≡ some s
          → (ports.env.sha256_hex secret === s.refresh_token_hash) ≡ true
          → Refreshes (refresh_admin_session ports raw w)
      genuine-Refreshes new keyed h k l =
          let g : IsGenuine s = record {
            session_id = session_id;
            secret = secret;
            parses = h;
            found = k;
            matches = (===_iff (ports.env.sha256_hex secret) s.refresh_token_hash).0 l;
          } in
          elim (Bool-cases (is_revoked s)) [
            | inl m ↦ subst Refreshes (sym (replayed h k l m)) (
              refl,
              inr (
                s,
                g,
                ground arith,
                refl,
                revoke_all_clears s.admin_user_id started w.db.sessions,
              ),
            )
            | inr m ↦ elim (Bool-cases (is_expired started s)) [
              | inl n ↦ subst Refreshes (sym (expired h k l m n)) (refl, inl refl)
              | inr n ↦
                  let same : s.id ≡ session_id =
                    key_of_get (λ v. v.id) session_id w.db.sessions s keyed k in
                  subst Refreshes (sym (accepted h k l m n)) (
                    s,
                    g,
                    ground arith,
                    ground arith,
                    after-IsRotated new (ap (λ y. get y w.db.sessions) same ∙ k),
                  )
            ]
          ]

  -- How a refresh ends. It fails with `invalid_refresh_token` and the stores as they were; or it
  -- fails so after a replay, which is a token whose secret has the hash of a revoked session, and
  -- then every session of its user is revoked and stays so; or the token's session was neither revoked nor
  -- expired, it is now revoked and points to a new open session of the same user with the hash of
  -- the new secret, and no other session has changed.
  pub refresh-Refreshes :
      get (ports.env.next_id w.ids) w.db.sessions ≡ none
      → IsKeyed (λ (v : AdminSession). v.id) w.db.sessions
      → Refreshes (refresh_admin_session ports raw w)
  refresh-Refreshes new keyed = elim (Result-cases (parse_raw_refresh_token raw)) [
    | inr (f, h) ↦ let (e, same) = malformed f h in subst Refreshes (sym e) (same, inl refl)
    | inl (p, h) ↦ elim (Option-cases (get p.0 w.db.sessions)) [
      | inl k ↦ subst Refreshes (sym (missing p.0 p.1 h k)) (refl, inl refl)
      | inr (s, k) ↦ elim (Bool-cases (ports.env.sha256_hex p.1 === s.refresh_token_hash)) [
        | inr l ↦ subst Refreshes (sym (guessed p.0 p.1 s h k l)) (refl, inl refl)
        | inl l ↦ genuine-Refreshes p.0 p.1 s new keyed h k l
      ]
    ]
  ]
