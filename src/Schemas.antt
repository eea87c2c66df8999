-- ===== src/Schemas.antt =====
-- packages/contract/gen/ts/schemas.ts: the zod schemas of the wire types, one for each `export`. A
-- schema that the file writes out again inside another one is named here.
pub mod Zod
pub mod Fit
pub mod Values
pub mod Requests
pub mod Jobs
pub mod Messages
use code_runner.Prelude.{ℕ, String, Option, none, some, List, [], ◌∷◌}
use code_runner.Prelude.Json.{null, num, str, arr, nil}
use code_runner.Api.Files.{ref_re}
use Zod.{
  Schema, Shape, Need, string, pattern, integer, boolean, one_of, array, nullable, object, no_more,
  property, required, optional, default,
}

-- z.string(), z.string().min(1), and the `ref` of a blob
abbrev pub text : Schema
text = string 0 none

abbrev nonempty : Schema
nonempty = string 1 none

abbrev blob_ref : Schema
blob_ref = pattern ref_re

abbrev positive : Schema
positive = integer (some 1)

abbrev pub limits_schema : Schema
limits_schema = object (
    property "wallTimeMs" required positive (
      property "idleMs" required positive (
        property "cpuMs" required positive (
          property "memoryMb" required positive (
            property "pids" required positive (
              property "outputKb" required positive (
                property "maxArtifacts" (default (num 20)) positive
                  (property "maxArtifactBytes" (default (num 4194304)) positive no_more))))))))

abbrev pub limits_override_schema : Schema
limits_override_schema = object (
    property "wallTimeMs" optional positive (
      property "idleMs" optional positive (
        property "cpuMs" optional positive (
          property "memoryMb" optional positive (
            property "pids" optional positive (
              property "outputKb" optional positive (
                property "maxArtifacts" optional positive
                  (property "maxArtifactBytes" optional positive no_more))))))))

abbrev pub file_input_schema : Schema
file_input_schema = object (
    property "name" required (string 1 (some 255)) (
      property "content" optional text (
        property "encoding" (default (str "utf8")) (one_of ("utf8" ∷ "base64" ∷ []))
          (property "ref" optional blob_ref no_more))))

abbrev pub manifest_schema : Schema
manifest_schema = object (
    property "language" required nonempty (
      property "version" required nonempty (
        property "aliases" (default (arr nil)) (array text 0) (
          property "image" required nonempty (
            property "entrypoint" required nonempty (
              property "compile" required (nullable (array text 0)) (
                property "run" required (array text 1) (
                  property "interactive" required boolean (
                    property "preimport" (default null) (nullable (array text 0))
                      (property "defaultLimits" required limits_schema no_more))))))))))

abbrev pub language_info_schema : Schema
language_info_schema = object (
    property "language" required text (
      property "version" required text (
        property "aliases" required (array text 0)
          (property "interactive" required boolean no_more))))

abbrev pub execute_request_schema : Schema
execute_request_schema = object (
    property "language" required nonempty (
      property "version" optional text (
        property "files" required (array file_input_schema 1) (
          property "limits" optional limits_override_schema
            (property "collectOutput" optional boolean no_more)))))

abbrev pub execute_response_schema : Schema
execute_response_schema = object (
    property "jobId" required text (
      property "channel" required text
        (property "status" required (one_of ("queued" ∷ [])) no_more)))

abbrev pub job_spec_schema : Schema
job_spec_schema = object (
    property "jobId" required text (
      property "channel" required text (
        property "language" required text (
          property "version" required text (
            property "image" required text (
              property "entrypoint" required text (
                property "compile" required (nullable (array text 0)) (
                  property "run" required (array text 1) (
                    property "interactive" required boolean (
                      property "files" required (array file_input_schema 1) (
                        property "limits" required limits_schema (
                          property "enqueuedAtMs" required (integer none) (
                            property "collectOutput" optional boolean (
                              property "traceparent" optional text
                                (property "tracestate" optional text no_more)))))))))))))))

abbrev pub job_state_schema : Schema
job_state_schema = one_of ("queued" ∷ "starting" ∷ "running" ∷ "done" ∷ "killed" ∷ "error" ∷ [])

abbrev pub job_status_schema : Schema
job_status_schema = object (
    property "jobId" required text (
      property "channel" required text (
        property "language" required text (
          property "version" required text (
            property "state" required job_state_schema
              (property "updatedAtMs" required (integer none) no_more))))))

abbrev pub stdin_message_schema : Schema
stdin_message_schema = object (property "chunk" required text no_more)

abbrev pub control_type_schema : Schema
control_type_schema = one_of ("start" ∷ "kill" ∷ "stdin_close" ∷ [])

abbrev pub control_message_schema : Schema
control_message_schema = object (property "type" required control_type_schema no_more)

abbrev pub blob_check_request_schema : Schema
blob_check_request_schema = object (property "hashes" required (array blob_ref 0) no_more)

abbrev pub blob_upload_schema : Schema
blob_upload_schema =
    object (property "hash" required blob_ref (property "uploadUrl" required text no_more))

abbrev pub blob_check_response_schema : Schema
blob_check_response_schema = object (
    property "missing" required (array blob_upload_schema 0)
      (property "present" required (array blob_ref 0) no_more))

abbrev pub blob_finalize_request_schema : Schema
blob_finalize_request_schema = object (property "hashes" required (array blob_ref 0) no_more)

abbrev pub blob_finalize_response_schema : Schema
blob_finalize_response_schema = object (property "finalized" required (array blob_ref 0) no_more)
