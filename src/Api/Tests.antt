-- ===== src/Api/Tests.antt =====
-- The exception filter at a concrete exception.
use pos_cloud.Common.{◌≡◌, refl, none, some, [], ◌∷◌}
use pos_cloud.Common.Text.{text}
use pos_cloud.Api.ExceptionFilter.{Exception, other_error, catch}
use pos_cloud.Api.ExceptionFilter.Safe.{public_part, IsAnswered, Logs, catch-redact}

-- a failed query, with its parameters
abbrev test_exception : Exception
test_exception = other_error (record {
  name = text "QueryFailedError";
  message = text "duplicate key";
  stack = text "at";
  driver_error = some (record {
    code = some (text "23505");
    constraint = none;
    table = some (text "customers");
    schema = none;
    others = (text "detail", text "Key (email)") ∷ [];
  });
  others = (text "query", text "INSERT") ∷ [];
})

catch-redact_example :
    ((catch test_exception none).body ≡ (catch (public_part test_exception) none).body)
    × IsAnswered test_exception (catch test_exception none).status
    × ((catch test_exception none).body.status_code ≡ (catch test_exception none).status)
    × Logs test_exception none (catch test_exception none)
catch-redact_example = catch-redact test_exception none

answers_500 : (catch test_exception none).status ≡ 500
unfolding catch
answers_500 = refl
