-- ===== src/Api/Jobs.antt =====
-- apps/api/src/routes/jobs.ts and routes/languages.ts: pulling the status and the output of a job,
-- and the list of languages.
use Prim.Native.String.{◌++◌}
use code_runner.Prelude.{ℕ, String, Option, none, some, List, ◌==◌, if◌then◌else◌}
use code_runner.Prelude.Int.{pos, negsuc}
use code_runner.Prelude.Result.{Result, ok, err}
use code_runner.Prelude.Json.{
  Json, num, negative, str, bool, arr, obj, end, field, array, error_body,
}
use code_runner.Prelude.State.{State, ◌>>=◌, pure}
use code_runner.Keyspace.{Stored, json, counter, raw}
use code_runner.Redis.{Redis}
use code_runner.Contract.{Manifest, LanguageInfo, job_status, job_output}
use code_runner.Contract.Manifests.{to_language_info}
use code_runner.Api.Http.{Response, Gateway, query}

abbrev pub response : ℕ → Json → Response
response status body = record { status = status; body = body }

-- `JSON.parse` of a string value; `none` if it throws
unfoldable pub json_parse : Stored → Option Json
json_parse (json v) = some v
json_parse (counter (pos n)) = some (num n)
json_parse (counter (negsuc n)) = some (negative n)
json_parse (raw s) = none

abbrev pub parsed : String → Option Json → Response
parsed malformed none = response 500 (error_body malformed)
parsed malformed (some v) = response 200 v

-- the answer to a stored value; an empty text counts as missing
unfoldable pub respond : String → String → Option Stored → Response
unfolding json_parse
respond missing malformed none = response 404 (error_body missing)
respond missing malformed (some (raw s)) =
    if s == "" then response 404 (error_body missing) else parsed malformed (json_parse (raw s))
respond missing malformed (some v) = parsed malformed (json_parse v)

module _ (r : Redis) where
  open r use {Db, get}

  -- GET /v1/jobs/:id and GET /v1/jobs/:id/status
  unfoldable pub respond_status : String → State (Gateway Db) Response
  respond_status job_id =
      if job_id == "" then pure (response 400 (error_body "Missing job id")) else (do
        stored ← query (get (job_status job_id))
        pure (respond ("Job not found: " ++ job_id) "Internal error: malformed job status" stored))

  -- GET /v1/jobs/:id/output
  unfoldable pub respond_output : String → State (Gateway Db) Response
  respond_output job_id =
      if job_id == "" then pure (response 400 (error_body "Missing job id")) else (do
        stored ← query (get (job_output job_id))
        pure (
            respond ("Job output not found: " ++ job_id) "Internal error: malformed job output"
              stored))

unfoldable pub language_info_json : LanguageInfo → Json
language_info_json l = obj (
    field "language" (str l.language) (
      field "version" (str l.version) (
        field "aliases" (arr (array str l.aliases))
          (field "interactive" (bool l.interactive) end))))

-- GET /v1/languages, on what the loader returned; its error is answered by the app's error handler
unfoldable pub languages : Result String (List Manifest) → Response
unfolding language_info_json
languages (ok manifests) =
    response 200 (arr (array language_info_json (to_language_info manifests)))
languages (err _) = response 500 (error_body "Internal server error")
