-- ===== src/Schemas/Jobs.antt =====
-- JobSpecSchema, JobStatusSchema and ExecuteResponseSchema: what the gateway writes for a job.
use mathlib.Core.List.{map}
use code_runner.Prelude.{
  String, Bool, true, ◌&&◌, Option, none, some, List, [], ◌∷◌, ◌≡◌, refl, ap, ◌∙◌, leb, length,
  arith, all,
}
use code_runner.Prelude.Json.{Json, bool, num, str, obj, end, field}
use code_runner.Contract.{
  JobSpec, JobStatus, JobState, spec_json, status_json, state_name, limits_json, strings, or_null,
}
use code_runner.Schemas.{
  text, limits_schema, job_spec_schema, job_status_schema, job_state_schema,
  execute_response_schema,
}
use code_runner.Schemas.Zod
use code_runner.Schemas.Zod.{Schema, Need, integer, boolean, one_of, nullable, verdict, IsZod}
use code_runner.Schemas.Zod.Rows.{Row, ◌&◌, parse_rows}
use code_runner.Schemas.Fit.{limits_fit, file_fits, with_encoding, row, free_row}
use code_runner.Schemas.Values.{
  given_value, free_value, text_fits, number_fits, strings_fit, or_null_fits, parse-limits_json,
}
use code_runner.Schemas.Requests.{files_row, files_value}

-- A command to run, a file at least, each file and each limit in its range.
unfoldable pub spec_fits : JobSpec → Bool
spec_fits s =
    leb 1 (length s.run) && (leb 1 (length s.files) && all file_fits s.files) && limits_fit s.limits

unfoldable pub with_encodings : JobSpec → JobSpec
with_encodings s = record s { files = map with_encoding s.files }

abbrev text_row : String → String → Row
text_row k s = row k Need.required text (str s) true

abbrev spec_rows : JobSpec → List Row
spec_rows s =
    text_row "jobId" s.job_id
    ∷ text_row "channel" s.channel
    ∷ text_row "language" s.language
    ∷ text_row "version" s.version
    ∷ text_row "image" s.image
    ∷ text_row "entrypoint" s.entrypoint
    ∷ row "compile" Need.required (nullable (Zod.array text 0)) (or_null s.compile) true
    ∷ row "run" Need.required (Zod.array text 1) (strings s.run) (leb 1 (length s.run))
    ∷ row "interactive" Need.required boolean (bool s.interactive) true
    ∷ files_row s.files
    ∷ row "limits" Need.required limits_schema (limits_json s.limits) (limits_fit s.limits)
    ∷ row "enqueuedAtMs" Need.required (integer none) (num s.enqueued_at_ms) true
    ∷ free_row "collectOutput" boolean bool s.collect_output
    ∷ free_row "traceparent" text str s.traceparent
    ∷ free_row "tracestate" text str s.tracestate
    ∷ []

abbrev status_rows : JobStatus → List Row
status_rows s =
    text_row "jobId" s.job_id
    ∷ text_row "channel" s.channel
    ∷ text_row "language" s.language
    ∷ text_row "version" s.version
    ∷ row "state" Need.required job_state_schema (str (state_name s.state)) true
    ∷ row "updatedAtMs" Need.required (integer none) (num s.updated_at_ms) true
    ∷ []

module _ (parse : Schema → Json → Option Json) (zod : IsZod parse) where
  text_value :
      (s : String) → Zod.parse_need (parse text) Need.required (some (str s)) ≡ some (some (str s))
  text_value s = given_value parse zod Need.required text (str s) true (text_fits parse zod s)

  pub parse-spec_json :
      (s : JobSpec)
      → parse job_spec_schema (spec_json s) ≡ verdict (spec_fits s) (spec_json (with_encodings s))
  unfolding spec_json spec_fits with_encodings
  parse-spec_json s =
      parse_rows parse zod (spec_rows s) refl (
        text_value s.job_id
        & text_value s.channel
        & text_value s.language
        & text_value s.version
        & text_value s.image
        & text_value s.entrypoint
        & given_value parse zod Need.required _ _ true (or_null_fits parse zod s.compile)
        & given_value parse zod Need.required _ _ _ (strings_fit parse zod 1 s.run)
        & given_value parse zod Need.required _ _ true (zod.boolean_law s.interactive)
        & files_value parse zod s.files
        & given_value parse zod Need.required _ _ _ (parse-limits_json parse zod s.limits)
        & given_value parse zod Need.required _ _ true (number_fits parse zod s.enqueued_at_ms)
        & free_value parse zod boolean bool s.collect_output zod.boolean_law
        & free_value parse zod text str s.traceparent (text_fits parse zod)
        & free_value parse zod text str s.tracestate (text_fits parse zod)
        & tt)
      ∙ ap (λ b. verdict b (spec_json (with_encodings s))) (ground arith)

  state_fits :
      (state : JobState)
      → parse job_state_schema (str (state_name state)) ≡ some (str (state_name state))
  state_fits JobState.queued = zod.one_of_law _ "queued"
  state_fits JobState.starting = zod.one_of_law _ "starting"
  state_fits JobState.running = zod.one_of_law _ "running"
  state_fits JobState.done = zod.one_of_law _ "done"
  state_fits JobState.killed = zod.one_of_law _ "killed"
  state_fits JobState.error = zod.one_of_law _ "error"

  pub parse-status_json :
      (s : JobStatus) → parse job_status_schema (status_json s) ≡ some (status_json s)
  unfolding status_json
  parse-status_json s = parse_rows parse zod (status_rows s) refl (
      text_value s.job_id
      & text_value s.channel
      & text_value s.language
      & text_value s.version
      & given_value parse zod Need.required _ _ true (state_fits s.state)
      & given_value parse zod Need.required _ _ true (number_fits parse zod s.updated_at_ms)
      & tt)

  pub parse-response_json :
      (id channel : String)
      → let v : Json = obj (
          field "jobId"
            (str id)
            (field "channel" (str channel) (field "status" (str "queued") end))) in
        parse execute_response_schema v ≡ some v
  parse-response_json id channel =
      parse_rows parse zod
        (text_row "jobId" id
          ∷ text_row "channel" channel
          ∷ row "status" Need.required (one_of ("queued" ∷ [])) (str "queued") true
          ∷ [])
        refl
        (text_value id
          & text_value channel
          & given_value parse zod Need.required _ _ true (zod.one_of_law ("queued" ∷ []) "queued")
          & tt)
