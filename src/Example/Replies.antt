-- ===== src/Example/Replies.antt =====
-- apps/example-with-nextjs/app/lib/api-helpers.ts: what the browser is told of a call or of an error.
use code_runner.Prelude.{ℕ, String, true, Option, none, some}
use code_runner.Prelude.Json.{Json, null, bool, str, obj, Fields, end, field, given, error_body}
use code_runner.Prelude.Result.{Result, ok, err}
use code_runner.Api.Http.{Response}
use code_runner.Sdk.Errors.{ClientError, ErrorClass}
use code_runner.Sdk.Client.{Thrown, rejected, failed, type_error}

-- What a handler may catch: an error of the SDK, or another one with its message.
pub data Caught : Type 0 where
  sdk : Thrown → Caught
  error : String → Caught

abbrev pub json_response : ℕ → Json → Response
json_response status body = record { status = status; body = body }

abbrev pub error_fields : String → Fields → Json
error_fields message rest = obj (field "error" (str message) rest)

abbrev pub class_response : ErrorClass → ClientError → Response
class_response ErrorClass.validation e = json_response 400 (error_body e.message)
class_response ErrorClass.unauthorized e =
    json_response 502 (error_body "code-runner gateway rejected the app token")
class_response ErrorClass.not_found e = json_response 404 (error_body e.message)
class_response ErrorClass.capacity e =
    json_response 429 (error_fields e.message (given "retryAfterMs" e.retry_after_ms end))
class_response ErrorClass.rate_limit e = json_response 429 (
    error_fields e.message
      (given "retryAfterMs" e.retry_after_ms (given "capBytes" e.cap_bytes end)))
class_response ErrorClass.base e = json_response e.status (error_body e.message)

-- the message of a TypeError is the engine's
unfoldable pub error_response : String → Caught → Response
error_response type_error_text (sdk (failed e)) = class_response e.class e
error_response type_error_text (sdk (rejected message)) = json_response 500 (error_body message)
error_response type_error_text (sdk type_error) = json_response 500 (error_body type_error_text)
error_response type_error_text (error message) = json_response 500 (error_body message)

abbrev pub ok_json : Json
ok_json = obj (field "ok" (bool true) end)

-- `data ?? { ok: true }`
abbrev pub or_ok : Option Json → Json
or_ok none = ok_json
or_ok (some null) = ok_json
or_ok (some v) = v

unfoldable pub handle : String → Result Caught (Option Json) → Response
unfolding error_response
handle type_error_text (ok d) = json_response 200 (or_ok d)
handle type_error_text (err e) = error_response type_error_text e
