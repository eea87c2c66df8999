-- ===== src/Api/Execute.antt =====
-- apps/api/src/routes/execute.ts: POST /v1/execute. The job id, the clock, the trace headers that
-- OpenTelemetry injects and the loaded manifests are arguments.
pub mod Effects
pub mod Queue
pub mod Concurrent
pub mod Typed
use Prim.Native.String.{◌++◌}
use Prim.Native.String
use mathlib.Core.Bool.{not}
use code_runner.Prelude.{
  ℕ, String, Bool, true, false, ◌&&◌, ◌||◌, Option, none, some, List, [], ◌∷◌, ◌==◌, includes,
  or_default, is_some, show, if◌then◌else◌,
}
use code_runner.Prelude.Int.{Number, gt_number}
use code_runner.Prelude.Json.{Json, str, obj, end, field, error_body}
use code_runner.Prelude.Result.{Result, ok, err}
use code_runner.Prelude.State.{State, ◌>>=◌, ◌>>◌, pure}
use code_runner.Keyspace.{Stored}
use code_runner.Redis.{Redis}
use code_runner.Contract.{
  Limits, LimitsOverride, Manifest, ExecuteRequest, JobSpec, JobStatus, JobState, spec_json,
  status_json, channel_for_job, job_spec, job_status, job_queue,
}
use code_runner.Contract.Manifests.{resolve_manifest}
use code_runner.Api.Http.{
  Response, Validated, invalid, valid, validation_error, Gateway, command, query,
}
use code_runner.Api.Config.{Config}
use code_runner.Api.Files.{validate_files, FileValidationError, ErrorKind}
use code_runner.Api.Admission.{at_capacity, admission_error, show_number}

unfoldable pub merge_limits : Limits → Option LimitsOverride → Limits
merge_limits defaults none = defaults
merge_limits defaults (some overrides) = record {
  wall_time_ms = or_default overrides.wall_time_ms defaults.wall_time_ms;
  idle_ms = or_default overrides.idle_ms defaults.idle_ms;
  cpu_ms = or_default overrides.cpu_ms defaults.cpu_ms;
  memory_mb = or_default overrides.memory_mb defaults.memory_mb;
  pids = or_default overrides.pids defaults.pids;
  output_kb = or_default overrides.output_kb defaults.output_kb;
  max_artifacts = or_default overrides.max_artifacts defaults.max_artifacts;
  max_artifact_bytes = or_default overrides.max_artifact_bytes defaults.max_artifact_bytes;
}

-- a value that `if (s)` takes: neither undefined nor empty
abbrev pub truthy : Option String → Option String
truthy none = none
truthy (some s) = if s == "" then none else some s

-- the 400 answer to a failed resolution, from the message of the thrown error
unfoldable pub unresolved : ExecuteRequest → String → Response
unfolding includes
unresolved req msg = record {
  status = 400;
  body = error_body (
      if is_some (truthy req.version) && includes msg "version"
      then "Unknown version \""
        ++ (or_default req.version ""
            ++ ("\" for language \"" ++ (req.language ++ "\". Check GET /v1/languages.")))
      else "Unknown language \"" ++ (req.language ++ "\". Check GET /v1/languages."));
}

abbrev pub error_prefix : ErrorKind → String
error_prefix ErrorKind.base64 = "Invalid file content"
error_prefix ErrorKind.ref = "Invalid file ref"
error_prefix ErrorKind.path = "Invalid file path"

unfoldable pub bad_file : FileValidationError → Response
bad_file e = record { status = 400; body = error_body (error_prefix e.kind ++ (": " ++ e.message)) }

unfoldable pub too_large : ℕ → Number → Response
unfolding show_number
too_large total cap = record {
  status = 413;
  body = error_body (
      "Input files too large: "
      ++ (show total
          ++ (" decoded bytes exceeds the "
              ++ (show_number cap ++ "-byte limit (MAX_FILES_BYTES)."))));
}

-- What the run time hands the handler: `randomUUID()`, `Date.now()` and the injected headers.
pub record Ambient : Type 0 where
  pub job_id : String
  pub now_ms : ℕ
  pub traceparent : Option String
  pub tracestate : Option String

unfoldable pub build_spec : Ambient → Manifest → ExecuteRequest → JobSpec
unfolding merge_limits
build_spec ambient manifest req = record {
  job_id = ambient.job_id;
  channel = channel_for_job ambient.job_id;
  language = manifest.language;
  version = manifest.version;
  image = manifest.image;
  entrypoint = manifest.entrypoint;
  compile = manifest.compile;
  run = manifest.run;
  interactive = manifest.interactive;
  files = req.files;
  limits = merge_limits manifest.default_limits req.limits;
  enqueued_at_ms = ambient.now_ms;
  collect_output = some (or_default req.collect_output false);
  traceparent = truthy ambient.traceparent;
  tracestate = truthy ambient.tracestate;
}

unfoldable pub initial_status : Ambient → Manifest → JobStatus
initial_status ambient manifest = record {
  job_id = ambient.job_id;
  channel = channel_for_job ambient.job_id;
  language = manifest.language;
  version = manifest.version;
  state = JobState.queued;
  updated_at_ms = ambient.now_ms;
}

unfoldable pub accepted : Ambient → Response
accepted ambient = record {
  status = 202;
  body = obj (
      field "jobId" (str ambient.job_id) (
        field "channel" (str (channel_for_job ambient.job_id))
          (field "status" (str "queued") end)));
}

module _ (r : Redis) (config : Config) (manifests : List Manifest) (ambient : Ambient) where
  open r use {Db, llen, set_ex, lpush}

  -- the pipeline: the spec, the status, the queue. Its replies are not looked at.
  unfoldable pub enqueue : Manifest → ExecuteRequest → State (Gateway Db) Response
  enqueue manifest req = do
    command (
        set_ex (job_spec ambient.job_id) (Stored.json (spec_json (build_spec ambient manifest req)))
          config.job_ttl_seconds)
    command (
        set_ex (job_status ambient.job_id)
          (Stored.json (status_json (initial_status ambient manifest))) config.job_ttl_seconds)
    command (lpush job_queue ambient.job_id)
    pure (accepted ambient)

  -- the queue is read again for the message
  unfoldable pub reject : State (Gateway Db) Response
  unfolding admission_error
  reject = do depth ← query (llen job_queue); admission_error r depth config.max_queue_depth

  unfoldable pub admit : Manifest → ExecuteRequest → State (Gateway Db) Response
  unfolding at_capacity reject enqueue
  admit manifest req = do
    full ← at_capacity r config.max_queue_depth
    if full then reject else enqueue manifest req

  unfoldable pub checked :
      Manifest → ExecuteRequest → ℕ → Option FileValidationError → State (Gateway Db) Response
  checked manifest req total (some e) = pure (bad_file e)
  checked manifest req total none =
      if gt_number total config.max_files_bytes
      then pure (too_large total config.max_files_bytes)
      else admit manifest req

  unfoldable pub resolved : ExecuteRequest → Result String Manifest → State (Gateway Db) Response
  unfolding checked
  resolved req (err msg) = pure (unresolved req msg)
  resolved req (ok manifest) =
      let check = validate_files req.files in checked manifest req check.total_bytes check.error

  unfoldable pub execute : Validated ExecuteRequest → State (Gateway Db) Response
  unfolding resolved
  execute (invalid issues) = pure (validation_error issues)
  execute (valid req) = resolved req (resolve_manifest manifests req.language req.version)
