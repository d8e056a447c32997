-- ===== src/Api/ExceptionFilter/Safe.antt =====
-- What the filter gives away of an exception, to the client and to the log.
use pos_cloud.Common.{
  ℕ, ◌≡◌, refl, ◌≤◌, ◌<◌, Option, none, some, [], ◌∷◌, ◌⊎◌, inl, inr, ap, arith, ◌∙◌, Bool-cases,
  leb,
}
use pos_cloud.Common.Text.{Text, text}
use pos_cloud.Kernel.{not_found, conflict, validation, unauthorized, forbidden}
use pos_cloud.Api.ExceptionFilter.{
  DriverError, JsError, Exception, of_kind, http_exception, other_error, no_error, catch, LogEntry,
  Handled, build_body, build_safe_log_error, safe_error, driver_fields, correlation_of,
}

-- An error with nothing but a message, and one without even that.
abbrev pub only_message : Text → JsError
only_message m = record { name = []; message = m; stack = []; driver_error = none; others = [] }

-- What a client may learn of an exception: of an error of the taxonomy its kind, code and message; of
-- an `HttpException` its status, response and message; of anything else nothing.
abbrev pub public_part : Exception → Exception
public_part (of_kind kind code e) = of_kind kind code (only_message e.message)
public_part (http_exception status response e) =
    http_exception status response (only_message e.message)
public_part (other_error e) = no_error []
public_part (no_error s) = no_error []

-- What the log may show of an error: its name, message and stack, and four properties of the
-- driver's error.
abbrev pub redact_driver : Option DriverError → Option DriverError
redact_driver none = none
redact_driver (some d) = some (record d { others = [] })

abbrev pub redact_error : JsError → JsError
redact_error e = record e { driver_error = redact_driver e.driver_error; others = [] }

-- An exception as the log may show it: without kind, code, status and response.
abbrev pub logged_part : Exception → Exception
logged_part (of_kind kind code e) = other_error (redact_error e)
logged_part (http_exception status response e) = other_error (redact_error e)
logged_part (other_error e) = other_error (redact_error e)
logged_part (no_error s) = no_error s

-- The status of an exception: an error of the taxonomy is the client's fault, an `HttpException` has
-- its own status, and anything else is the server's fault.
abbrev pub IsAnswered : Exception → ℕ → Type 0
IsAnswered (of_kind kind code e) status = (400 ≤ status) × (status < 500)
IsAnswered (http_exception s response e) status = status ≡ s
IsAnswered (other_error e) status = status ≡ 500
IsAnswered (no_error s) status = status ≡ 500

driver-redact : (d : Option DriverError) → driver_fields (redact_driver d) ≡ driver_fields d
driver-redact none = refl
driver-redact (some d) = refl

-- What is logged of an error is in its visible parts.
safe-redact : (e : JsError) → safe_error (redact_error e) ≡ safe_error e
safe-redact e =
    ap
      (λ fields.
        (text "name", e.name) ∷ (text "message", e.message) ∷ (text "stack", e.stack) ∷ fields)
      (driver-redact e.driver_error)

private_fits :
    (e : Exception) (id : Option Text) → (catch e id).body ≡ (catch (public_part e) id).body
unfolding catch build_body
private_fits (of_kind kind code e) id = refl
private_fits (http_exception status response e) id = refl
private_fits (other_error e) id = refl
private_fits (no_error s) id = refl

answered : (e : Exception) (id : Option Text) → IsAnswered e (catch e id).status
unfolding catch build_body
answered (of_kind not_found code e) id = (omega arith, omega arith)
answered (of_kind conflict code e) id = (omega arith, omega arith)
answered (of_kind validation code e) id = (omega arith, omega arith)
answered (of_kind unauthorized code e) id = (omega arith, omega arith)
answered (of_kind forbidden code e) id = (omega arith, omega arith)
answered (http_exception status response e) id = refl
answered (other_error e) id = refl
answered (no_error s) id = refl

log_redact : (e : Exception) → build_safe_log_error (logged_part e) ≡ build_safe_log_error e
unfolding build_safe_log_error
log_redact (of_kind kind code e) = safe-redact e
log_redact (http_exception status response e) = safe-redact e
log_redact (other_error e) = safe-redact e
log_redact (no_error s) = refl

-- What is logged of an exception: with a status of 500 or more one entry, which is that of the
-- visible parts of the exception and carries the correlation id; otherwise nothing.
abbrev pub Logs : Exception → Option Text → Handled → Type 0
Logs e id handled =
    ((500 ≤ handled.status)
      × (l : LogEntry) × (handled.logged ≡ some l)
      × ((catch (logged_part e) id).logged ≡ some l)
      × (l.correlation_id ≡ handled.body.correlation_id))
    ⊎ ((handled.status < 500) × (handled.logged ≡ none))

entry : Exception → Option Text → LogEntry
entry e id = record {
  err = build_safe_log_error e;
  correlation_id = correlation_of id;
  message = text "Unhandled exception";
}

log_of :
    (e : Exception) (id : Option Text)
    → (catch (logged_part e) id).logged ≡ some (entry (logged_part e) id)
unfolding catch build_body entry
log_of (of_kind kind code e) id = refl
log_of (http_exception status response e) id = refl
log_of (other_error e) id = refl
log_of (no_error s) id = refl

same_entry : (e : Exception) (id : Option Text) → entry (logged_part e) id ≡ entry e id
unfolding entry
same_entry e id =
    ap
      (λ fields. record {
        err = fields;
        correlation_id = correlation_of id;
        message = text "Unhandled exception";
      })
      (log_redact e)

correlation :
    (e : Exception) (id : Option Text) → correlation_of id ≡ (catch e id).body.correlation_id
unfolding catch build_body
correlation (of_kind kind code e) id = refl
correlation (http_exception status response e) id = refl
correlation (other_error e) id = refl
correlation (no_error s) id = refl

logs : (e : Exception) (id : Option Text) → Logs e id (catch e id)
unfolding catch entry
logs e id = elim (Bool-cases (leb 500 (build_body e (correlation_of id)).status_code)) [
  | inl h ↦ inl (
    ground arith,
    entry e id,
    rw h refl,
    log_of e id ∙ ap some (same_entry e id),
    correlation e id,
  )
  | inr h ↦ inr (ground arith, rw h refl)
]

-- What leaves the filter. The answer to the client is that of the public part of the exception, so
-- that of an unexpected error it tells nothing; it has the status of the exception. If that is 500
-- or more, the entry of the visible parts of the exception is logged, and otherwise nothing.
pub catch-redact :
    (e : Exception) (id : Option Text)
    → ((catch e id).body ≡ (catch (public_part e) id).body)
      × IsAnswered e (catch e id).status
      × ((catch e id).body.status_code ≡ (catch e id).status)
      × Logs e id (catch e id)
unfolding catch
catch-redact e id = (private_fits e id, answered e id, refl, logs e id)
