-- ===== src/Audit/Listing.antt =====
-- What a listing of audit events shows.
use pos_cloud.Common.{
  ℕ, ◌≡◌, refl, ◌⊎◌, ◌≤◌, ◌<◌, Bool, true, false, ◌&&◌, Option, none, some, List, ok, filter, leb,
  arith, ap,
}
use pos_cloud.Common.Text.{Text, ===_iff}
use pos_cloud.Common.Sorting.{sort, IsChain, sort-Perm, sort-IsChain}
use pos_cloud.Kernel.{World, AuditEvent}
use pos_cloud.Pagination.{PaginationQuery, PaginatedResult, page_of, normalize_pagination, truthy}
use pos_cloud.Pagination.Pages.{IsListing, page_of-IsListing, passes, narrow-filter, narrow_more}
use pos_cloud.Pagination.Criteria.{
  IsMet, IsMetText, AreThose, Decides, passes-IsMet, passes-IsMetText, both-Decides,
}
use pos_cloud.Audit.{
  ListAuditEventsQuery, of_actor_type, of_actor, of_action, of_resource_type, of_resource,
  of_correlation, is_from, is_to, is_some_text, same_actor_type_iff, is_before, matching_events,
  list_audit_events,
}

module _ (query : ListAuditEventsQuery) where
  -- An event has what the query asks for, and lies in its span of time, both ends included.
  abbrev pub Meets : AuditEvent → Type 0
  Meets e =
      ((((((IsMet query.actor_type (λ t. e.actor_type ≡ t)
                  × IsMetText query.actor_id (λ id. e.actor_id ≡ some id))
                × IsMetText query.action (λ action. e.action ≡ action))
              × IsMetText query.resource_type (λ t. e.resource_type ≡ t))
            × IsMetText query.resource_id (λ id. e.resource_id ≡ id))
          × IsMetText query.correlation_id (λ id. e.correlation_id ≡ id))
        × IsMet query.from (λ t. t ≤ e.occurred_at))
      × IsMet query.to (λ t. e.occurred_at ≤ t)

  -- All criteria of a query, as a test of one event.
  abbrev is_asked_for : AuditEvent → Bool
  is_asked_for e =
      ((((((passes query.actor_type of_actor_type e && passes (truthy query.actor_id) of_actor e)
                && passes (truthy query.action) of_action e)
              && passes (truthy query.resource_type) of_resource_type e)
            && passes (truthy query.resource_id) of_resource e)
          && passes (truthy query.correlation_id) of_correlation e)
        && passes query.from is_from e)
      && passes query.to is_to e

  some_text-Decides : (x : Text) (o : Option Text) → Decides (is_some_text x o) (o ≡ some x)
  some_text-Decides x none = (λ e. absurd (cc e), λ e. absurd (cc e))
  some_text-Decides x (some y) = (λ e. ap some ((===_iff y x).0 e), λ e. (===_iff y x).1 (cc e))

  leb-Decides : (m n : ℕ) → Decides (leb m n) (m ≤ n)
  leb-Decides m n = (λ e. ground arith, λ e. ground arith)

  asked-Decides : (e : AuditEvent) → Decides (is_asked_for e) (Meets e)
  asked-Decides e =
      both-Decides _ _
        (both-Decides _ _
          (both-Decides _ _
            (both-Decides _ _
              (both-Decides _ _
                (both-Decides _ _
                  (both-Decides _ _
                    (passes-IsMet query.actor_type of_actor_type _ e
                      λ t. same_actor_type_iff e.actor_type t)
                    (passes-IsMetText query.actor_id of_actor _ e
                      λ id. some_text-Decides id e.actor_id))
                  (passes-IsMetText query.action of_action _ e λ action. ===_iff e.action action))
                (passes-IsMetText query.resource_type of_resource_type _ e
                  λ t. ===_iff e.resource_type t))
              (passes-IsMetText query.resource_id of_resource _ e λ id. ===_iff e.resource_id id))
            (passes-IsMetText query.correlation_id of_correlation _ e
              λ id. ===_iff e.correlation_id id))
          (passes-IsMet query.from is_from _ e λ t. leb-Decides t e.occurred_at))
        (passes-IsMet query.to is_to _ e λ t. leb-Decides e.occurred_at t)

  module _ (id_le : Text → Text → Bool) where
    matching :
        (events : List AuditEvent) → matching_events id_le query events ≡ filter is_asked_for events
    unfolding matching_events
    matching events = narrow_more query.to is_to _ events _ (
        narrow_more query.from is_from _ events _ (
          narrow_more (truthy query.correlation_id) of_correlation _ events _ (
            narrow_more (truthy query.resource_id) of_resource _ events _ (
              narrow_more (truthy query.resource_type) of_resource_type _ events _ (
                narrow_more (truthy query.action) of_action _ events _ (
                  narrow_more (truthy query.actor_id) of_actor _ events _
                    (narrow-filter query.actor_type of_actor_type events)))))))

    -- Of two ids one does not come after the other.
    abbrev pub IsTotal : Type 0
    IsTotal = (a b : Text) → id_le a b ≡ false → id_le b a ≡ true

    -- The first event is later, or both are of one time and the id of the second does not come
    -- after that of the first.
    abbrev pub Precedes : AuditEvent → AuditEvent → Type 0
    Precedes e f =
        (f.occurred_at < e.occurred_at)
        ⊎ ((f.occurred_at ≡ e.occurred_at) × (id_le f.id e.id ≡ true))

    before-Precedes : (e f : AuditEvent) → is_before id_le e f ≡ true → Precedes e f
    unfolding is_before
    before-Precedes e f h = ground arith

    after-Precedes : IsTotal → (e f : AuditEvent) → is_before id_le e f ≡ false → Precedes f e
    unfolding is_before
    after-Precedes total e f h = ground (arith, total f.id e.id)

    module _ {Db : Type 0} (E : Type 0) (w : World Db) where
      pub record Lists : Type 0 where
        pub list : PaginationQuery → PaginatedResult AuditEvent
        pub events : List AuditEvent
        pub answers :
            (p : PaginationQuery)
            → list_audit_events id_le {Db = Db} {E = E} (record query { pagination = p }) w
              ≡ (ok (list p), w)
        pub listing : IsListing list events query.pagination
        pub those : AreThose Meets w.trail events
        pub newest_first : IsChain Precedes events

      -- If of any two ids one does not come after the other, a listing of audit events changes
      -- nothing and never fails. Its pages from 1 to the number of pages, put together, are the
      -- recorded events that have what the query asks for and lie in its span of time, each as often
      -- as it was recorded, and each event is later than the next or of the same time and with an id
      -- that does not come before that of the next. A page has at most 100 items, and has items
      -- exactly up to the number of pages.
      pub list_audit_events-Lists : IsTotal → Lists
      unfolding list_audit_events matching_events
      list_audit_events-Lists total =
          let found = matching_events id_le query w.trail in
          let before = is_before id_le in
          record {
            list = λ p. page_of (sort before found) (normalize_pagination p);
            events = sort before found;
            answers = λ p. refl;
            listing = page_of-IsListing (sort before found) query.pagination;
            those = record {
              test = is_asked_for;
              tests = asked-Decides;
              rearranged = rw (← matching w.trail) (sort-Perm before found);
            };
            newest_first =
                sort-IsChain before Precedes before-Precedes (after-Precedes total) found;
          }
