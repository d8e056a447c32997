-- ===== src/Audit.antt =====
-- libs/control-plane/audit: ListAuditEventsUseCase and the `list` of the TypeORM repository, over
-- the trail that `AuditRecorderAdapter.record` writes. The order of the ids in the database is a
-- parameter: whether the one does not come after the other.
pub mod Listing
mod Tests
use pos_cloud.Common.{
  ℕ, ◌≡◌, refl, ◌↔◌, Bool, true, false, Option, none, some, List, [], ◌∷◌, Result, ok, leb, ltb,
  ◌==◌, if◌then◌else◌, Action,
}
use pos_cloud.Common.Text.{Text, ◌===◌}
use pos_cloud.Common.Sorting.{sort}
use pos_cloud.Kernel.{World, AuditEvent, AuditActorType, admin, installation, system}
use pos_cloud.Pagination.{
  PaginationQuery, PaginatedResult, normalize_pagination, page_of, narrow, truthy,
}

pub record ListAuditEventsQuery : Type 0 where
  pub pagination : PaginationQuery
  pub actor_type : Option AuditActorType
  pub actor_id : Option Text
  pub action : Option Text
  pub resource_type : Option Text
  pub resource_id : Option Text
  pub correlation_id : Option Text
  pub from : Option ℕ
  pub to : Option ℕ

-- `===` of the string enumeration
unfoldable pub same_actor_type : AuditActorType → AuditActorType → Bool
same_actor_type admin admin = true
same_actor_type installation installation = true
same_actor_type system system = true
same_actor_type _ _ = false

pub same_actor_type_iff : (s t : AuditActorType) → (same_actor_type s t ≡ true) ↔ (s ≡ t)
unfolding same_actor_type
same_actor_type_iff admin admin = (λ h. refl, λ h. refl)
same_actor_type_iff admin installation = (λ h. cc, λ h. cc)
same_actor_type_iff admin system = (λ h. cc, λ h. cc)
same_actor_type_iff installation admin = (λ h. cc, λ h. cc)
same_actor_type_iff installation installation = (λ h. refl, λ h. refl)
same_actor_type_iff installation system = (λ h. cc, λ h. cc)
same_actor_type_iff system admin = (λ h. cc, λ h. cc)
same_actor_type_iff system installation = (λ h. cc, λ h. cc)
same_actor_type_iff system system = (λ h. refl, λ h. refl)

abbrev pub is_some_text : Text → Option Text → Bool
is_some_text x none = false
is_some_text x (some y) = y === x

abbrev pub of_actor_type : AuditActorType → AuditEvent → Bool
of_actor_type t e = same_actor_type e.actor_type t

abbrev pub of_actor : Text → AuditEvent → Bool
of_actor id e = is_some_text id e.actor_id

abbrev pub of_action : Text → AuditEvent → Bool
of_action action e = e.action === action

abbrev pub of_resource_type : Text → AuditEvent → Bool
of_resource_type t e = e.resource_type === t

abbrev pub of_resource : Text → AuditEvent → Bool
of_resource id e = e.resource_id === id

abbrev pub of_correlation : Text → AuditEvent → Bool
of_correlation id e = e.correlation_id === id

abbrev pub is_from : ℕ → AuditEvent → Bool
is_from t e = leb t e.occurred_at

abbrev pub is_to : ℕ → AuditEvent → Bool
is_to t e = leb e.occurred_at t

module _ (id_le : Text → Text → Bool) where
  -- `ORDER BY occurred_at DESC, id DESC`
  unfoldable pub is_before : AuditEvent → AuditEvent → Bool
  is_before a b =
      if a.occurred_at == b.occurred_at then id_le b.id a.id else ltb b.occurred_at a.occurred_at

  unfoldable pub matching_events : ListAuditEventsQuery → List AuditEvent → List AuditEvent
  matching_events query events = narrow query.to is_to (
      narrow query.from is_from (
        narrow (truthy query.correlation_id) of_correlation (
          narrow (truthy query.resource_id) of_resource (
            narrow (truthy query.resource_type) of_resource_type (
              narrow (truthy query.action) of_action (
                narrow (truthy query.actor_id) of_actor
                  (narrow query.actor_type of_actor_type events)))))))

  unfoldable pub list_audit_events :
      {Db E : Type 0} → ListAuditEventsQuery → Action (World Db) E (PaginatedResult AuditEvent)
  list_audit_events query w = (
    ok (
        page_of (sort is_before (matching_events query w.trail))
          (normalize_pagination query.pagination)),
    w,
  )
