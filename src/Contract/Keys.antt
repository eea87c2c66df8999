-- ===== src/Contract/Keys.antt =====
-- The keys of one job are apart from one another, and those of two jobs are too.
use text.Mathlib.TextLemmas.{append_cancel_left, append_cancel_right}
use code_runner.Prelude.{String, some, none, ◌≡◌, ◌≢◌, sym, ap, ◌∙◌, arith, drop_prefix}
use code_runner.Prelude.Dropping.{drop_prefix-append}
use code_runner.Prelude.Endings.{last_code, last_code-template, ne_of_last_code}
use code_runner.Contract.{job_status, job_spec, job_output, blob_meta, blob_index}

last-job_status : (id : String) → last_code (job_status id) ≡ b's'
unfolding job_status last_code
last-job_status id = last_code-template "job:" id "status" ":"

last-job_spec : (id : String) → last_code (job_spec id) ≡ b'c'
unfolding job_spec last_code
last-job_spec id = last_code-template "job:" id "spec" ":"

last-job_output : (id : String) → last_code (job_output id) ≡ b't'
unfolding job_output last_code
last-job_output id = last_code-template "job:" id "output" ":"

pub status-ne-spec : (a b : String) → job_status a ≢ job_spec b
status-ne-spec a b = ne_of_last_code (omega (arith, last-job_status a, last-job_spec b))

output-ne-status : (a b : String) → job_output a ≢ job_status b
output-ne-status a b = ne_of_last_code (omega (arith, last-job_output a, last-job_status b))

output-ne-spec : (a b : String) → job_output a ≢ job_spec b
output-ne-spec a b = ne_of_last_code (omega (arith, last-job_output a, last-job_spec b))

job_status-injective : (a b : String) → job_status a ≡ job_status b → a ≡ b
unfolding job_status
job_status-injective a b e = append_cancel_right a b ":status" (append_cancel_left "job:" _ _ e)

job_spec-injective : (a b : String) → job_spec a ≡ job_spec b → a ≡ b
unfolding job_spec
job_spec-injective a b e = append_cancel_right a b ":spec" (append_cancel_left "job:" _ _ e)

job_output-injective : (a b : String) → job_output a ≡ job_output b → a ≡ b
unfolding job_output
job_output-injective a b e = append_cancel_right a b ":output" (append_cancel_left "job:" _ _ e)

-- Whatever the two ids: the keys of the status, of the spec and of the output are never the same,
-- and two jobs that share one of these keys are the same job.
pub job_keys_apart :
    (a b : String)
    → (job_status a ≢ job_spec b)
      × (job_output a ≢ job_status b)
      × (job_output a ≢ job_spec b)
      × (job_status a ≡ job_status b → a ≡ b)
      × (job_spec a ≡ job_spec b → a ≡ b)
      × (job_output a ≡ job_output b → a ≡ b)
job_keys_apart a b = (
  status-ne-spec a b,
  output-ne-status a b,
  output-ne-spec a b,
  job_status-injective a b,
  job_spec-injective a b,
  job_output-injective a b,
)

-- The metadata of a blob is not the index.
pub blob_meta-ne-index : (h : String) → blob_meta h ≢ blob_index
unfolding blob_meta drop_prefix
blob_meta-ne-index h e =
    let q : some h ≡ none =
      sym (drop_prefix-append "blob:meta:" h) ∙ ap (drop_prefix "blob:meta:") e in
    cc (q)
