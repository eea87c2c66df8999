-- ===== src/Contract.antt =====
-- packages/contract/src/index.ts: the names of the Redis keys, of the Redis channels and of the
-- soketi channel that the gateway, the worker and the clients agree on.
mod Wire
pub mod Keys
pub mod Manifests
unfoldable pub use Wire.*
use Prim.Native.String.{◌++◌}
use code_runner.Prelude.{String}

unfoldable pub channel_for_job : String → String
channel_for_job job_id = "private-run-" ++ job_id

unfoldable pub stdin_channel : String → String
stdin_channel job_id = "stdin:" ++ job_id

unfoldable pub control_channel : String → String
control_channel job_id = "ctrl:" ++ job_id

abbrev pub job_queue : String
job_queue = "jobs:queue"

unfoldable pub job_status : String → String
job_status job_id = "job:" ++ (job_id ++ ":status")

unfoldable pub job_spec : String → String
job_spec job_id = "job:" ++ (job_id ++ ":spec")

unfoldable pub job_output : String → String
job_output job_id = "job:" ++ (job_id ++ ":output")

unfoldable pub start_flag : String → String
start_flag job_id = "start:" ++ job_id

unfoldable pub blob_meta : String → String
blob_meta h = "blob:meta:" ++ h

unfoldable pub blob_lease : String → String
blob_lease h = "blob:lease:" ++ h

abbrev pub blob_index : String
blob_index = "blobs:index"

abbrev pub blob_gc_candidates : String
blob_gc_candidates = "blobs:gc:candidates"

abbrev pub blob_gc_lock : String
blob_gc_lock = "blobs:gc:lock"
