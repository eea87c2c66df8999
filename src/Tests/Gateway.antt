-- ===== src/Tests/Gateway.antt =====
-- The theorems on the gateway at concrete inputs.
use code_runner.Prelude.{
  ℕ, suc, String, true, false, none, some, List, [], ◌∷◌, ◌≡◌, ◌≢◌, ◌≤◌, ◌+◌, ◌*◌, ◌&&◌, ltb, leb,
  if◌then◌else◌, join, map, filter, not, refl, sym, ap, ◌∙◌, ◌⊎◌, ◌↔◌, inl, inr, arith, All,
}
use code_runner.Prelude.Int.{nan, ge_number}
use code_runner.Prelude.Result.{ok}
use code_runner.Keyspace
use code_runner.Keyspace.{Keyspace}
use code_runner.Redis.Memory.{memory, empty}
use code_runner.Contract.{
  kill, stdin_close, job_queue, job_status, job_spec, job_output, status_json, blob_meta,
  blob_index,
}
use code_runner.Contract.Manifests.{resolve_manifest}
use code_runner.Api.Http.{Gateway, valid}
use code_runner.Api.Files.{sanitize_workspace_path, check_file, validate_files}
use code_runner.Api.Execute.{execute, initial_status}
use code_runner.Api.Execute.Effects.{
  IsAdmissible, execute_rejected, execute-accepted_iff, execute-full,
}
use code_runner.Api.Execute.Queue.{IsQueued, execute-IsQueued, execute_refused_ttl}
use code_runner.Tests.Fixtures.{python, config, request, ambient, idle, escaping, main_py}

found : resolve_manifest (python ∷ []) "py" none ≡ ok python
unfolding resolve_manifest code_runner.Contract.Manifests.answers_to
found = refl

files_pass : (validate_files (main_py ∷ [])).error ≡ none
unfolding validate_files check_file sanitize_workspace_path code_runner.Prelude.split
    code_runner.Api.Files.cleaned code_runner.Prelude.join code_runner.Api.Files.check_source
    code_runner.Api.Files.check_content
files_pass = refl

admissible : IsAdmissible memory config (python ∷ []) ambient (valid request)
unfolding validate_files check_file sanitize_workspace_path code_runner.Prelude.split
    code_runner.Api.Files.cleaned code_runner.Prelude.join code_runner.Api.Files.check_source
    code_runner.Api.Files.check_content
admissible = record {
  body = request;
  parsed = refl;
  manifest = python;
  found = found;
  files = files_pass;
  size = refl;
}

answered : (execute memory config (python ∷ []) ambient (valid request) idle).0.status ≡ 202
answered =
    (execute-accepted_iff memory config (python ∷ []) ambient (valid request) idle).1
      (admissible, refl)

refused :
    (execute memory config
      (python ∷ [])
      ambient
      (valid (record request { files = escaping ∷ [] }))
      idle).0.status
    ≡ 400
unfolding execute resolve_manifest code_runner.Contract.Manifests.answers_to validate_files
    check_file sanitize_workspace_path code_runner.Prelude.split code_runner.Api.Execute.bad_file
refused = refl

execute_rejected_example :
    (execute memory config
      (python ∷ [])
      ambient
      (valid (record request { files = escaping ∷ [] }))
      idle).1.db
    ≡ empty
execute_rejected_example =
    execute_rejected memory config (python ∷ []) ambient
      (valid (record request { files = escaping ∷ [] })) idle (λ e. omega (arith, e, refused))

execute-accepted_iff_example :
    ((execute memory config (python ∷ []) ambient (valid request) idle).0.status ≡ 202) ↔ (
      IsAdmissible memory config (python ∷ []) ambient (valid request)
      × (ge_number (Keyspace.llen job_queue empty) config.max_queue_depth ≡ false))
execute-accepted_iff_example =
    execute-accepted_iff memory config (python ∷ []) ambient (valid request) idle

abbrev busy : Gateway Keyspace
busy = record idle {
  db = Keyspace.lpush job_queue "job-b" (Keyspace.lpush job_queue "job-a" empty);
}

turned_away : (execute memory config (python ∷ []) ambient (valid request) busy).0.status ≡ 429
unfolding execute resolve_manifest code_runner.Contract.Manifests.answers_to validate_files
    check_file sanitize_workspace_path code_runner.Prelude.split code_runner.Api.Files.cleaned
    code_runner.Prelude.join code_runner.Api.Files.check_source code_runner.Api.Files.check_content
    code_runner.Api.Execute.admit
turned_away = refl

execute-full_example :
    IsAdmissible memory config (python ∷ []) ambient (valid request)
    × (ge_number (Keyspace.llen job_queue busy.db) config.max_queue_depth ≡ true)
    × ((execute memory config (python ∷ []) ambient (valid request) busy).1.metrics
        ≡ record { admission_rejected = 1; frame_rate_rejected = 0; byte_cap_rejected = 0 })
execute-full_example =
    execute-full memory config (python ∷ []) ambient (valid request) busy turned_away

execute-IsQueued_example :
    (a : IsAdmissible memory config (python ∷ []) ambient (valid request)) × IsQueued ambient
      a.manifest a.body 3600000 empty
      (execute memory config (python ∷ []) ambient (valid request) idle).1.db
execute-IsQueued_example =
    execute-IsQueued memory config (python ∷ []) ambient (valid request) idle 3599 refl answered

abbrev no_ttl : code_runner.Api.Config.Config
no_ttl = record config { job_ttl_seconds = nan }

lost_job : (execute memory no_ttl (python ∷ []) ambient (valid request) idle).0.status ≡ 202
unfolding validate_files check_file sanitize_workspace_path code_runner.Prelude.split
    code_runner.Api.Files.cleaned code_runner.Prelude.join code_runner.Api.Files.check_source
    code_runner.Api.Files.check_content
lost_job = (execute-accepted_iff memory no_ttl (python ∷ []) ambient (valid request) idle).1 (
  record {
    body = request;
    parsed = refl;
    manifest = python;
    found = found;
    files = files_pass;
    size = refl;
  },
  refl,
)

execute_refused_ttl_example :
    (execute memory no_ttl (python ∷ []) ambient (valid request) idle).1.db
    ≡ Keyspace.lpush job_queue "job-1" empty
execute_refused_ttl_example =
    execute_refused_ttl memory no_ttl (python ∷ []) ambient (valid request) idle tt lost_job
