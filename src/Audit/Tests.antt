-- ===== src/Audit/Tests.antt =====
-- The listing of audit events at a concrete trail.
use pos_cloud.Common.{Bool, ℕ, none, some, [], ◌∷◌, arith, length, leb}
use pos_cloud.Common.Text.{Text, text}
use pos_cloud.Kernel.{World, AuditEvent, system}
use pos_cloud.Pagination.{finite, pos, not_finite}
use pos_cloud.Audit.{ListAuditEventsQuery}
use pos_cloud.Audit.Listing.{Lists, list_audit_events-Lists}

abbrev event : ℕ → Text → AuditEvent
event t id = record {
  id = id;
  occurred_at = t;
  actor_type = system;
  actor_id = none;
  action = text "installation.created";
  resource_type = text "Installation";
  resource_id = text "i";
  correlation_id = text "r";
  metadata = [];
}

abbrev test_world : World (Unit {0})
test_world = record {
  db = tt;
  ticks = 3;
  ids = 3;
  secrets = 0;
  trail = event 5 (text "a") ∷ event 7 (text "b") ∷ event 7 (text "c") ∷ [];
}

abbrev test_query : ListAuditEventsQuery
test_query = record {
  pagination = record { page = finite (pos 1); page_size = not_finite };
  actor_type = some system;
  actor_id = none;
  action = none;
  resource_type = some (text "Installation");
  resource_id = none;
  correlation_id = none;
  from = some 5;
  to = none;
}

abbrev shorter : Text → Text → Bool
shorter a b = leb (length a) (length b)

list_audit_events-Lists_example : Lists test_query shorter (Unit {0}) test_world
list_audit_events-Lists_example =
    list_audit_events-Lists test_query shorter (Unit {0}) test_world (λ a b h. ground arith)
