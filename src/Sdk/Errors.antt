-- ===== src/Sdk/Errors.antt =====
-- packages/code-runner-sdk-node/src/errors.ts, and `throwForStatus` of client.ts: the error that a
-- client sees for an answer. `JSON.parse` is a parameter, `none` where it throws.
use Prim.Native.String.{◌++◌}
use code_runner.Prelude.{
  ℕ, suc, String, Bool, true, false, Option, none, some, ◌==◌, eqb, or_default, show, if◌then◌else◌,
}
use code_runner.Prelude.Json.{
  Json, null, bool, num, negative, str, arr, obj, Items, nil, cons, member,
}

pub data ErrorClass : Type 0 where
  base unauthorized not_found validation capacity rate_limit : ErrorClass

-- a `CodeRunnerError` or one of its subclasses
pub record ClientError : Type 0 where
  pub class : ErrorClass
  pub message : String
  pub status : ℕ
  pub body : Option Json
  pub retry_after_ms : Option Json
  pub cap_bytes : Option Json

unfoldable mutual
  -- `String(v)`
  pub to_text : Json → String
  to_text null = "null"
  to_text (bool true) = "true"
  to_text (bool false) = "false"
  to_text (num n) = show n
  to_text (negative n) = "-" ++ show (suc n)
  to_text (str s) = s
  to_text (arr items) = items_text items
  to_text (obj fields) = "[object Object]"

  -- an array is its items with commas in between, null as nothing
  pub items_text : Items → String
  items_text nil = ""
  items_text (cons null nil) = ""
  items_text (cons v nil) = to_text v
  items_text (cons null (cons w rest)) = "," ++ items_text (cons w rest)
  items_text (cons v (cons w rest)) = to_text v ++ ("," ++ items_text (cons w rest))

-- The body as `throwForStatus` reads it: nothing if it is empty, the text itself if it is no JSON.
unfoldable pub parsed_body : (String → Option Json) → String → Option Json
parsed_body json_parse text =
    if text == "" then none else some (or_default (json_parse text) (str text))

error_text : ℕ → Option Json → String
error_text status none = "Request failed with status " ++ show status
error_text status (some v) = to_text v

unfoldable pub error_class : ℕ → Bool → ErrorClass
error_class status is_stdin =
    if eqb status 401
    then ErrorClass.unauthorized
    else if eqb status 404
    then ErrorClass.not_found
    else if eqb status 400
    then ErrorClass.validation
    else if eqb status 429
    then (if is_stdin then ErrorClass.rate_limit else ErrorClass.capacity)
    else ErrorClass.base

-- what only the two classes for 429 carry
abbrev retry_of : ErrorClass → Option Json → Option Json
retry_of ErrorClass.rate_limit b = member "retryAfterMs" b
retry_of ErrorClass.capacity b = member "retryAfterMs" b
retry_of _ b = none

abbrev cap_of : ErrorClass → Option Json → Option Json
cap_of ErrorClass.rate_limit b = member "capBytes" b
cap_of _ b = none

-- `throwForStatus`: the error that it throws
unfoldable pub throw_for_status : (String → Option Json) → ℕ → String → Bool → ClientError
unfolding error_text error_class parsed_body member
throw_for_status json_parse status text is_stdin =
    let parsed = parsed_body json_parse text in
    let c = error_class status is_stdin in
    record {
      class = c;
      message = error_text status (member "error" parsed);
      status = status;
      body = parsed;
      retry_after_ms = retry_of c parsed;
      cap_bytes = cap_of c parsed;
    }
