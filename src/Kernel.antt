-- ===== src/Kernel.antt =====
-- libs/shared-kernel: the clock, the id generator, the audit contract and the error taxonomy.
-- A call of a use case is an action on a `World`: the stores of its bounded context, how often the
-- clock and the generators have been read, and the audit trail. The clock, the generators, the
-- cryptography of Node, the Unicode tables and the database with its `ILIKE` are not in this repository; they are fields of `Env`.
use pos_cloud.Common.{
  ℕ, suc, ◌-◌, take, drop, length, List, [], ◌∷◌, ◌++◌, Option, Bool, if◌then◌else◌, ok, err,
  Action,
}
use pos_cloud.Common.Text.{Text, includes}

-- libs/shared-kernel/src/errors.ts
pub data ErrorKind : Type 0 where
  not_found conflict validation unauthorized forbidden : ErrorKind

pub data AuditActorType : Type 0 where
  admin installation system : AuditActorType

pub record AuditActorContext : Type 0 where
  pub actor_type : AuditActorType
  pub actor_id : Option Text
  pub correlation_id : Text

-- A value of the metadata of an event.
pub data MetadataValue : Type 0 where
  string_value : Text → MetadataValue
  number_value : ℕ → MetadataValue

-- `metadata` is a small record of strings and numbers, by name.
pub record AuditEventInput : Type 0 where
  pub actor : AuditActorContext
  pub action : Text
  pub resource_type : Text
  pub resource_id : Text
  pub metadata : List (Text × MetadataValue)

-- libs/control-plane/audit/src/domain/audit-event.ts
pub record AuditEvent : Type 0 where
  pub id : Text
  pub occurred_at : ℕ
  pub actor_type : AuditActorType
  pub actor_id : Option Text
  pub action : Text
  pub resource_type : Text
  pub resource_id : Text
  pub correlation_id : Text
  pub metadata : List (Text × MetadataValue)

-- What the program calls and does not implement. The clock gives the milliseconds of its n-th
-- reading; the generators give the n-th value that they are asked for.
pub record Env : Type 0 where
  pub clock : ℕ → ℕ
  pub next_id : ℕ → Text
  pub next_secret : ℕ → Text
  pub sha256_hex : Text → Text
  pub hex_bytes : Text → List ℕ
  pub to_upper_case : Text → Text
  pub to_lower_case : Text → Text
  pub audit_accepts : AuditEvent → Bool
  -- whether a value matches a pattern by the `ILIKE` of PostgreSQL
  pub ilike : Text → Text → Bool

-- The pattern of a search.
abbrev pub search_pattern : Text → Text
search_pattern search = b'%' ∷ search ++ b'%' ∷ []

-- An instance of `ilike`, right for a search without wildcards and letters: whether the value has
-- what stands between the first and the last code unit of the pattern.
abbrev pub contains : Text → Text → Bool
contains value pattern = includes (take (length pattern - 2) (drop 1 pattern)) value

pub record World (Db : Type 0) : Type 0 where
  pub db : Db
  pub ticks : ℕ
  pub ids : ℕ
  pub secrets : ℕ
  pub trail : List AuditEvent

abbrev audit_event : Text → ℕ → AuditEventInput → AuditEvent
audit_event id occurred_at input = record {
  id = id;
  occurred_at = occurred_at;
  actor_type = input.actor.actor_type;
  actor_id = input.actor.actor_id;
  action = input.action;
  resource_type = input.resource_type;
  resource_id = input.resource_id;
  correlation_id = input.actor.correlation_id;
  metadata = input.metadata;
}

module _ (env : Env) {Db E : Type 0} where
  -- `clock.now()`
  abbrev pub now : Action (World Db) E ℕ
  now w = (ok (env.clock w.ticks), record w { ticks = suc w.ticks })

  -- `idGenerator.next()`
  abbrev pub fresh_id : Action (World Db) E Text
  fresh_id w = (ok (env.next_id w.ids), record w { ids = suc w.ids })

  -- `generateSecret()`
  abbrev pub generate_secret : Action (World Db) E Text
  generate_secret w = (ok (env.next_secret w.secrets), record w { secrets = suc w.secrets })

  -- `AuditRecorderAdapter.record`: an event that the store refuses is logged and dropped, and the
  -- call goes on.
  unfoldable pub record_audit : AuditEventInput → Action (World Db) E (Unit {0})
  record_audit input w =
      let event = audit_event (env.next_id w.ids) (env.clock w.ticks) input in
      (
        ok tt,
        record w {
          ids = suc w.ids;
          ticks = suc w.ticks;
          trail = if env.audit_accepts event then w.trail ++ event ∷ [] else w.trail;
        },
      )

module _ {Db E A : Type 0} where
  -- One database transaction: what the callback wrote is kept if it returns and dropped if it throws.
  abbrev pub transaction : Action (World Db) E A → Action (World Db) E A
  transaction f w =
      let (r, w') = f w in elim r [ ok a ↦ (ok a, w') | err e ↦ (err e, record w' { db = w.db }) ]
