-- ===== src/Contract/Wire.antt =====
-- packages/contract/gen/ts/types.ts: the wire types. A field that may be absent is an `Option`, a
-- `null` union is an `Option` too. `JSON.stringify` of the two types that the gateway stores.
use code_runner.Prelude.{ℕ, String, Bool, Option, none, some, List}
use code_runner.Prelude.Json.{Json, null, bool, num, str, arr, obj, end, field, array, optional}

pub data JobState : Type 0 where
  queued starting running done killed error : JobState

pub data ControlType : Type 0 where
  start kill stdin_close : ControlType

pub data StagePhase : Type 0 where
  queued compiling running : StagePhase

pub record Limits : Type 0 where
  pub wall_time_ms : ℕ
  pub idle_ms : ℕ
  pub cpu_ms : ℕ
  pub memory_mb : ℕ
  pub pids : ℕ
  pub output_kb : ℕ
  pub max_artifacts : ℕ
  pub max_artifact_bytes : ℕ

pub record LimitsOverride : Type 0 where
  pub wall_time_ms : Option ℕ
  pub idle_ms : Option ℕ
  pub cpu_ms : Option ℕ
  pub memory_mb : Option ℕ
  pub pids : Option ℕ
  pub output_kb : Option ℕ
  pub max_artifacts : Option ℕ
  pub max_artifact_bytes : Option ℕ

pub data Encoding : Type 0 where
  utf8 base64 : Encoding

pub record FileInput : Type 0 where
  pub name : String
  pub content : Option String
  pub encoding : Option Encoding
  pub ref : Option String

pub record Manifest : Type 0 where
  pub language : String
  pub version : String
  pub aliases : List String
  pub image : String
  pub entrypoint : String
  pub compile : Option (List String)
  pub run : List String
  pub interactive : Bool
  pub preimport : Option (List String)
  pub default_limits : Limits

pub record LanguageInfo : Type 0 where
  pub language : String
  pub version : String
  pub aliases : List String
  pub interactive : Bool

pub record ExecuteRequest : Type 0 where
  pub language : String
  pub version : Option String
  pub files : List FileInput
  pub limits : Option LimitsOverride
  pub collect_output : Option Bool

pub record JobSpec : Type 0 where
  pub job_id : String
  pub channel : String
  pub language : String
  pub version : String
  pub image : String
  pub entrypoint : String
  pub compile : Option (List String)
  pub run : List String
  pub interactive : Bool
  pub files : List FileInput
  pub limits : Limits
  pub enqueued_at_ms : ℕ
  pub collect_output : Option Bool
  pub traceparent : Option String
  pub tracestate : Option String

pub record JobStatus : Type 0 where
  pub job_id : String
  pub channel : String
  pub language : String
  pub version : String
  pub state : JobState
  pub updated_at_ms : ℕ

pub record OutputChunkEvent : Type 0 where
  pub chunk : String
  pub seq : ℕ

pub record ResultEvent : Type 0 where
  pub exit_code : Option ℕ
  pub signal : Option String
  pub timed_out : Bool
  pub idle_timed_out : Bool
  pub truncated : Bool
  pub duration_ms : ℕ

pub record Artifact : Type 0 where
  pub name : String
  pub mime_type : String
  pub bytes : ℕ
  pub url : String

pub record BlobUpload : Type 0 where
  pub hash : String
  pub upload_url : String

pub record BlobCheckResponse : Type 0 where
  pub missing : List BlobUpload
  pub present : List String

abbrev pub state_name : JobState → String
state_name JobState.queued = "queued"
state_name JobState.starting = "starting"
state_name JobState.running = "running"
state_name JobState.done = "done"
state_name JobState.killed = "killed"
state_name JobState.error = "error"

unfoldable pub encoding_name : Encoding → String
encoding_name utf8 = "utf8"
encoding_name base64 = "base64"

unfoldable pub strings : List String → Json
strings xs = arr (array str xs)

unfoldable pub or_null : Option (List String) → Json
or_null none = null
or_null (some xs) = strings xs

unfoldable pub file_json : FileInput → Json
file_json f = obj (
    field "name" (str f.name) (
      optional "content" str f.content (
        optional "encoding" (λ e. str (encoding_name e)) f.encoding
          (optional "ref" str f.ref end))))

unfoldable pub limits_json : Limits → Json
limits_json l = obj (
    field "wallTimeMs" (num l.wall_time_ms) (
      field "idleMs" (num l.idle_ms) (
        field "cpuMs" (num l.cpu_ms) (
          field "memoryMb" (num l.memory_mb) (
            field "pids" (num l.pids) (
              field "outputKb" (num l.output_kb) (
                field "maxArtifacts" (num l.max_artifacts)
                  (field "maxArtifactBytes" (num l.max_artifact_bytes) end))))))))

unfoldable pub status_json : JobStatus → Json
status_json s = obj (
    field "jobId" (str s.job_id) (
      field "channel" (str s.channel) (
        field "language" (str s.language) (
          field "version" (str s.version) (
            field "state" (str (state_name s.state))
              (field "updatedAtMs" (num s.updated_at_ms) end))))))

unfoldable pub spec_json : JobSpec → Json
unfolding file_json limits_json strings or_null encoding_name
spec_json s = obj (
    field "jobId" (str s.job_id) (
      field "channel" (str s.channel) (
        field "language" (str s.language) (
          field "version" (str s.version) (
            field "image" (str s.image) (
              field "entrypoint" (str s.entrypoint) (
                field "compile" (or_null s.compile) (
                  field "run" (strings s.run) (
                    field "interactive" (bool s.interactive) (
                      field "files" (arr (array file_json s.files)) (
                        field "limits" (limits_json s.limits) (
                          field "enqueuedAtMs" (num s.enqueued_at_ms) (
                            optional "collectOutput" bool s.collect_output (
                              optional "traceparent" str s.traceparent
                                (optional "tracestate" str s.tracestate end)))))))))))))))
