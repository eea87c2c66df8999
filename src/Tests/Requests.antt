-- ===== src/Tests/Requests.antt =====
-- The theorems on files, authentication, stdin, control and blobs at concrete inputs.
use code_runner.Prelude.{
  Option, ◌==◌, none, ℕ, suc, String, true, false, none, some, List, [], ◌∷◌, ◌≡◌, ◌≢◌, ◌≤◌, ◌+◌,
  ◌*◌, ◌&&◌, ltb, leb, if◌then◌else◌, join, map, filter, not, refl, sym, ap, ◌∙◌, ◌⊎◌, ◌↔◌, inl,
  inr, arith, All,
}
use code_runner.Prelude.Int.{pos}
use code_runner.Prelude.Int.{int}
use code_runner.Prelude.Result.{ok}
use code_runner.Redis.Memory.{memory, empty}
use code_runner.Contract.{kill, stdin_close, job_status, job_spec, job_output}
use code_runner.Contract.Keys.{job_keys_apart}
use code_runner.Api.Http.{valid, invalid, validation_error}
use code_runner.Api.Files.{sanitize_workspace_path, check_file, validate_files}
use code_runner.Api.Files.Paths.{
  IsSafe, sanitize_workspace_path-IsSafe, sanitize_workspace_path_of_IsSafe,
}
use code_runner.Api.Files.Validation.{Outcome, validate_files-Outcome}
use code_runner.Api.Config.{load_config}
use code_runner.Api.Config.Checks.{IsComplete, load_config-IsComplete}
use code_runner.Api.Stdin.{post_stdin}
use code_runner.Api.Stdin.Route.{Delivered, post_stdin_exact}
use code_runner.Api.Control.{
  post_kill, post_start, post_stdin_close, control_effects, OnlyPublishes, Started,
}
use code_runner.Api.Blobs.{
  not_configured, touch, blobs_check, blobs_finalize, check_json, finalize_json,
}
use code_runner.Api.Blobs.Touch.{IsTouched, longest, touch-IsTouched}
use code_runner.Api.Blobs.Handshake.{
  blobs_check-sorted_out, blobs_finalize-blobs_check, there, fresh, sorted_out,
}
use code_runner.Tests.Fixtures.{idle, escaping, main_py}

validate_files-Outcome_example :
    Outcome 0 (main_py ∷ escaping ∷ []) (validate_files (main_py ∷ escaping ∷ []))
validate_files-Outcome_example = validate_files-Outcome (main_py ∷ escaping ∷ [])

abbrev a : String
a = "a"

abbrev b : String
b = "b"

job_keys_apart_example :
    (job_status a ≢ job_spec b)
    × (job_output a ≢ job_status b)
    × (job_output a ≢ job_spec b)
    × (job_status a ≡ job_status b → a ≡ b)
    × (job_spec a ≡ job_spec b → a ≡ b)
    × (job_output a ≡ job_output b → a ≡ b)
job_keys_apart_example = job_keys_apart a b

touch-IsTouched_example :
    ((touch memory (λ h n. h) true 60 30 7 "h" "0" 7 1000 empty).0 ≡ pos (longest none 1000))
    × IsTouched "h" "0" "7" 1000 empty (touch memory (λ h n. h) true 60 30 7 "h" "0" 7 1000 empty).1
unfolding code_runner.Prelude.show
touch-IsTouched_example =
    touch-IsTouched memory (λ h n. h) true 60 30 7 "h" "0" 1000 empty (omega arith)

normalized : sanitize_workspace_path "src//./main.py" ≡ ok "src/main.py"
unfolding sanitize_workspace_path code_runner.Prelude.split code_runner.Api.Files.cleaned join
normalized = refl

sanitize_workspace_path-IsSafe_example :
    (segs : List String) × ("src/main.py" ≡ join "/" segs) × (segs ≢ []) × All IsSafe segs
sanitize_workspace_path-IsSafe_example =
    sanitize_workspace_path-IsSafe "src//./main.py" "src/main.py" normalized

IsSafe-a : IsSafe "a"
IsSafe-a = ((λ e. cc), (λ e. cc), (λ e. cc), ((λ e. omega (arith, e)), tt))

IsSafe-b : IsSafe "b"
IsSafe-b = ((λ e. cc), (λ e. cc), (λ e. cc), ((λ e. omega (arith, e)), tt))

sanitize_workspace_path_of_IsSafe_example :
    sanitize_workspace_path (join "/" ("a" ∷ "b" ∷ [])) ≡ ok (join "/" ("a" ∷ "b" ∷ []))
sanitize_workspace_path_of_IsSafe_example =
    sanitize_workspace_path_of_IsSafe ("a" ∷ "b" ∷ []) (IsSafe-a, (IsSafe-b, tt)) (λ e. cc)

abbrev chunk : String
chunk = "y"

post_stdin_exact_example :
    Delivered memory "job-1" chunk 0 idle (post_stdin memory "job-1" 1500 (valid chunk) idle)
post_stdin_exact_example =
    post_stdin_exact memory "job-1" 1500 0 0 chunk idle (λ e. cc) (inr (refl, refl))
      (inr (refl, refl))

control_effects_example :
    Started memory "job-1" idle (post_start memory "job-1" idle)
    × OnlyPublishes memory "job-1" stdin_close idle (post_stdin_close memory "job-1" idle)
    × OnlyPublishes memory "job-1" kill idle (post_kill memory "job-1" idle)
control_effects_example = control_effects memory "job-1" idle

abbrev presign : String → ℕ → String
presign hash seconds = hash

blobs_check-sorted_out_example :
    ((true ≡ true)
      → ((blobs_check memory presign true 60 30 7 (valid ("h" ∷ "k" ∷ "h" ∷ [])) empty).0 ≡ record {
        status = 200;
        body = check_json (
            sorted_out memory presign true 60 30 7
              (omega arith)
              empty
              (fresh [] ("h" ∷ "k" ∷ "h" ∷ [])));
      })
        × (there (blobs_check memory presign true 60 30 7 (valid ("h" ∷ "k" ∷ "h" ∷ [])) empty).1
            ≡ there empty))
    × ((true ≡ false)
        → blobs_check memory presign true 60 30 7 (valid ("h" ∷ "k" ∷ "h" ∷ [])) empty
          ≡ (not_configured, empty))
    × (blobs_check memory presign true 60 30 7 (invalid []) empty ≡ (validation_error [], empty))
blobs_check-sorted_out_example =
    blobs_check-sorted_out memory presign true 60 30 7 (omega arith) ("h" ∷ "k" ∷ "h" ∷ []) [] empty

blobs_finalize-blobs_check_example :
    let done = blobs_finalize memory presign true 60 30 7 (valid ("h" ∷ "k" ∷ "h" ∷ [])) empty in
    (done.0 ≡ record { status = 200; body = finalize_json (fresh [] ("h" ∷ "k" ∷ "h" ∷ [])) })
    × ((blobs_check memory presign true 60 30 7 (valid ("h" ∷ "k" ∷ "h" ∷ [])) done.1).0 ≡ record {
      status = 200;
      body = check_json (record { missing = []; present = fresh [] ("h" ∷ "k" ∷ "h" ∷ []) });
    })
    × ((h : String) → there empty h ≡ true → there done.1 h ≡ true)
blobs_finalize-blobs_check_example =
    blobs_finalize-blobs_check memory presign true 60 30 7 (omega arith) ("h" ∷ "k" ∷ "h" ∷ [])
      empty refl

-- the two variables that have no default
abbrev variables : String → Option String
variables name =
    if name == "EXECUTOR_API_TOKEN"
    then some "secret"
    else if name == "REDIS_URL"
    then some "redis://localhost"
    else none

abbrev loaded : code_runner.Api.Config.Config
loaded = record code_runner.Tests.Fixtures.config {
  max_queue_depth = int (pos 256);
  max_files_bytes = int (pos 8388608);
}

loads : load_config variables "/languages" ≡ ok loaded
unfolding load_config code_runner.Prelude.show
loads = refl

load_config-IsComplete_example : IsComplete variables "/languages" loaded
load_config-IsComplete_example = load_config-IsComplete variables "/languages" loaded loads
