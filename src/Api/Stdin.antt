-- ===== src/Api/Stdin.antt =====
-- apps/api/src/ratelimit.ts and the stdin route of routes/control.ts: POST /v1/jobs/:id/stdin with
-- its middlewares in the order of the route: frame rate, validation, pending bytes, publication.
pub mod Guards
pub mod Route
pub mod Concurrent
use Prim.Native.String.{◌++◌, len}
use code_runner.Prelude.{
  ℕ, ◌+◌, ◌*◌, ◌/◌, String, Bool, true, false, Option, none, some, ◌==◌, show, if◌then◌else◌,
}
use code_runner.Prelude.Int.{ℤ, pos, ltb_ℤ}
use code_runner.Prelude.Json.{Json, num, bool, str, obj, end, field}
use code_runner.Prelude.State.{State, ◌>>=◌, ◌>>◌, pure}
use code_runner.Redis.{Redis}
use code_runner.Contract.{stdin_channel}
use code_runner.Api.Http.{
  Response, Validated, invalid, valid, validation_error, Gateway, command, reply,
}

abbrev pub stdin_rate_limit_frames : ℕ
stdin_rate_limit_frames = 30

abbrev pub stdin_rate_window_secs : ℕ
stdin_rate_window_secs = 1

abbrev pub stdin_pending_byte_cap : ℕ
stdin_pending_byte_cap = 65536

unfoldable pub rate_limit_key : String → ℕ → String
rate_limit_key job_id now_ms =
    "job:" ++ (job_id ++ (":stdin_rate:" ++ show (now_ms / (stdin_rate_window_secs * 1000))))

unfoldable pub pending_bytes_key : String → String
pending_bytes_key job_id = "job:" ++ (job_id ++ ":stdin_pending")

-- `count > cap`, false where the reply was an error
abbrev pub exceeds : Option ℤ → ℕ → Bool
exceeds none cap = false
exceeds (some z) cap = ltb_ℤ (pos cap) z

abbrev pub too_many_frames : Response
too_many_frames = record {
  status = 429;
  body = obj (
      field "error" (str "Too many stdin frames")
        (field "retryAfterMs" (num (stdin_rate_window_secs * 1000)) end));
}

abbrev pub cap_exceeded : Response
cap_exceeded = record {
  status = 429;
  body = obj (
      field "error" (str "Stdin pending-byte cap exceeded. Wait for the worker to drain.")
        (field "capBytes" (num stdin_pending_byte_cap) end));
}

abbrev pub chunk_json : String → Json
chunk_json chunk = obj (field "chunk" (str chunk) end)

module _ (r : Redis) (job_id : String) where
  open r use {Db, incrby, decrby, expire, publish}

  reject_frame : State (Gateway Db) Response
  reject_frame g = (
    too_many_frames,
    record g {
      metrics = record g.metrics { frame_rate_rejected = g.metrics.frame_rate_rejected + 1 };
    },
  )

  -- the middleware in front of `next`
  pub stdin_rate_limit : ℕ → State (Gateway Db) Response → State (Gateway Db) Response
  unfolding reject_frame
  stdin_rate_limit now_ms next = if job_id == "" then next else do
    count ← reply (incrby (rate_limit_key job_id now_ms) 1)
    command (expire (rate_limit_key job_id now_ms) (stdin_rate_window_secs + 1))
    if exceeds count stdin_rate_limit_frames then reject_frame else next

  -- the increment is undone for a frame that is refused
  unfoldable pub reject_bytes : ℕ → State (Gateway Db) Response
  reject_bytes bytes g = (
    cap_exceeded,
    record {
      db = decrby (pending_bytes_key job_id) bytes g.db;
      metrics = record g.metrics { byte_cap_rejected = g.metrics.byte_cap_rejected + 1 };
    },
  )

  pub stdin_byte_cap_check :
      Option String → State (Gateway Db) Response → State (Gateway Db) Response
  unfolding reject_bytes
  stdin_byte_cap_check none next = next
  stdin_byte_cap_check (some chunk) next = if job_id == "" then next else do
    total ← reply (incrby (pending_bytes_key job_id) (len chunk))
    command (expire (pending_bytes_key job_id) 300)
    if exceeds total stdin_pending_byte_cap then reject_bytes (len chunk) else next

  unfoldable pub publish_stdin : String → State (Gateway Db) Response
  publish_stdin chunk = do
    command (publish (stdin_channel job_id) (chunk_json chunk))
    pure (record { status = 200; body = obj (field "ok" (bool true) end) })

  validated_stdin : Validated String → State (Gateway Db) Response
  validated_stdin (invalid issues) = pure (validation_error issues)
  validated_stdin (valid chunk) = stdin_byte_cap_check (some chunk) (publish_stdin chunk)

  -- POST /v1/jobs/:id/stdin
  pub post_stdin : ℕ → Validated String → State (Gateway Db) Response
  unfolding validated_stdin
  post_stdin now_ms body = stdin_rate_limit now_ms (validated_stdin body)
