-- ===== src/Api/ExceptionFilter.antt =====
-- apps/api/src/common/all-exceptions.filter.ts: what a client is answered and what is logged when a
-- handler throws.
pub mod Safe
use pos_cloud.Common.{ℕ, Option, none, some, List, [], ◌∷◌, ◌++◌, leb, ◌==◌, if◌then◌else◌}
use pos_cloud.Common.Text.{Text, text}
use pos_cloud.Kernel.{ErrorKind, not_found, conflict, validation, unauthorized, forbidden}

-- The error of a database driver, if it is an object: four of its properties where they are texts,
-- and all the others, `detail` among them.
pub record DriverError : Type 0 where
  pub code : Option Text
  pub constraint : Option Text
  pub table : Option Text
  pub schema : Option Text
  pub others : List (Text × Text)

-- An instance of `Error`, with its own properties such as `query` and `parameters`.
pub record JsError : Type 0 where
  pub name : Text
  pub message : Text
  pub stack : Text
  pub driver_error : Option DriverError
  pub others : List (Text × Text)

-- The `message` of the response of an `HttpException`.
pub data MessageField : Type 0 where
  message_list : List Text → MessageField
  message_text : Text → MessageField
  no_message : MessageField

pub data ResponseBody : Type 0 where
  text_body : Text → ResponseBody
  object_body : MessageField → ResponseBody
  no_body : ResponseBody

-- What is thrown: an error of the shared taxonomy with its code, an `HttpException` with its status
-- and response, any other error, or a value that is no error, as `String` prints it.
pub data Exception : Type 0 where
  of_kind : ErrorKind → Text → JsError → Exception
  http_exception : ℕ → ResponseBody → JsError → Exception
  other_error : JsError → Exception
  no_error : Text → Exception

pub record ErrorBody : Type 0 where
  pub status_code : ℕ
  pub code : Text
  pub message : Text
  pub correlation_id : Text
  pub details : Option (List Text)

-- The entry that the filter logs: the error under `err`, with the correlation id, and a message.
pub record LogEntry : Type 0 where
  pub err : List (Text × Text)
  pub correlation_id : Text
  pub message : Text

-- What `catch` does: the entry that it logs, if any, and the response.
pub record Handled : Type 0 where
  pub logged : Option LogEntry
  pub status : ℕ
  pub body : ErrorBody

abbrev pub kind_status : ErrorKind → ℕ
kind_status not_found = 404
kind_status conflict = 409
kind_status validation = 400
kind_status unauthorized = 401
kind_status forbidden = 403

unfoldable pub http_status_to_code : ℕ → Text
http_status_to_code status =
    if status == 400
    then text "VALIDATION_ERROR"
    else if status == 404
    then text "NOT_FOUND"
    else if status == 409
    then text "CONFLICT"
    else if status == 401
    then text "UNAUTHORIZED"
    else if status == 403
    then text "FORBIDDEN"
    else text "HTTP_ERROR"

unfoldable pub normalize_http_exception_response : ResponseBody → Text → Text × Option (List Text)
normalize_http_exception_response (text_body s) fallback = (s, none)
normalize_http_exception_response (object_body (message_list details)) fallback =
    (text "Validation failed", some details)
normalize_http_exception_response (object_body (message_text s)) fallback = (s, none)
normalize_http_exception_response (object_body no_message) fallback = (fallback, none)
normalize_http_exception_response no_body fallback = (fallback, none)

unfoldable pub build_body : Exception → Text → ErrorBody
unfolding normalize_http_exception_response
build_body (of_kind kind code e) correlation_id = record {
  status_code = kind_status kind;
  code = code;
  message = e.message;
  correlation_id = correlation_id;
  details = none;
}
build_body (http_exception status response e) correlation_id =
    let (message, details) = normalize_http_exception_response response e.message in
    record {
      status_code = status;
      code = http_status_to_code status;
      message = message;
      correlation_id = correlation_id;
      details = details;
    }
build_body (other_error e) correlation_id = record {
  status_code = 500;
  code = text "INTERNAL_ERROR";
  message = text "An unexpected error occurred.";
  correlation_id = correlation_id;
  details = none;
}
build_body (no_error s) correlation_id = record {
  status_code = 500;
  code = text "INTERNAL_ERROR";
  message = text "An unexpected error occurred.";
  correlation_id = correlation_id;
  details = none;
}

-- `if (typeof value === "string") safe[key] = value;`
abbrev pub safe_field : Text → Option Text → List (Text × Text)
safe_field key none = []
safe_field key (some value) = (key, value) ∷ []

abbrev pub driver_fields : Option DriverError → List (Text × Text)
driver_fields none = []
driver_fields (some pg) =
    safe_field (text "postgresCode") pg.code
    ++ (safe_field (text "constraint") pg.constraint
        ++ (safe_field (text "table") pg.table ++ safe_field (text "schema") pg.schema))

abbrev pub safe_error : JsError → List (Text × Text)
safe_error e =
    (text "name", e.name)
    ∷ (text "message", e.message)
    ∷ (text "stack", e.stack)
    ∷ driver_fields e.driver_error

unfoldable pub build_safe_log_error : Exception → List (Text × Text)
build_safe_log_error (of_kind kind code e) = safe_error e
build_safe_log_error (http_exception status response e) = safe_error e
build_safe_log_error (other_error e) = safe_error e
build_safe_log_error (no_error s) = (text "message", s) ∷ []

-- `request.id !== undefined ? String(request.id) : "unknown"`
abbrev pub correlation_of : Option Text → Text
correlation_of none = text "unknown"
correlation_of (some id) = id

-- `AllExceptionsFilter.catch`
unfoldable pub catch : Exception → Option Text → Handled
unfolding build_body build_safe_log_error
catch exception request_id =
    let correlation_id = correlation_of request_id in
    let body = build_body exception correlation_id in
    record {
      logged =
          if leb 500 body.status_code
          then some (record {
            err = build_safe_log_error exception;
            correlation_id = correlation_id;
            message = text "Unhandled exception";
          })
          else none;
      status = body.status_code;
      body = body;
    }
