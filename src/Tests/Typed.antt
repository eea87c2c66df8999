-- ===== src/Tests/Typed.antt =====
-- The theorems on the schemas at concrete inputs, with a parser that keeps what zod documents.
use mathlib.Core.Option
use code_runner.Prelude.{
  ℕ, String, Bool, true, false, Option, none, some, List, [], ◌∷◌, ◌≡◌, refl, leb, arith,
  if◌then◌else◌,
}
use code_runner.Prelude.Json.{
  Json, null, bool, num, negative, str, arr, obj, Items, nil, cons, Fields, end,
}
use code_runner.Prelude.Int.{gt_number}
use code_runner.Prelude.Result.{ok}
use code_runner.Prelude.Json.{lookup}
use code_runner.Redis.Memory.{memory, empty}
use code_runner.Contract.{ExecuteRequest}
use code_runner.Contract.Manifests.{resolve_manifest}
use code_runner.Api.Http.{valid}
use code_runner.Api.Files.{sanitize_workspace_path, check_file, validate_files, ref_re}
use code_runner.Api.Execute.{execute}
use code_runner.Api.Execute.Effects.{IsAdmissible, execute-accepted_iff}
use code_runner.Api.Execute.Typed.{IsTyped, execute-IsTyped}
use code_runner.Api.Blobs.{blobs_check, blobs_finalize}
use code_runner.Api.Blobs.Typed.{hashes_json, handshake-IsTyped}
use code_runner.Schemas.{
  execute_request_schema, manifest_schema, blob_check_request_schema, blob_check_response_schema,
  blob_finalize_response_schema,
}
use code_runner.Schemas.Zod.{
  Schema, Shape, string, pattern, integer, boolean, one_of, array, nullable, object, no_more,
  property, verdict, has_length, at_least, one_named, count, only_null, or_else, only_known,
  all_parsed, with_property, parse_need, parse_items, parse_shape, takes_null, IsZod,
}
use code_runner.Schemas.Requests.{
  request_json, request_fits, with_defaults, manifest_json, parse-request_json, parse-manifest_json,
}
use code_runner.Tests.Fixtures.{python, config, ambient, idle, main_py}

each : (Json → Option Json) → Items → Option Items
each parse nil = some nil
each parse (cons v items) = all_parsed (parse v) (each parse items)

integral : Option ℕ → Json → Option Json
integral lo (num n) = verdict (at_least lo n) (num n)
integral none (negative n) = some (negative n)
integral lo v = none

mutual
  pub safe_parse : Schema → Json → Option Json
  safe_parse (string lo hi) (str s) = verdict (has_length lo hi s) (str s)
  safe_parse (pattern test) (str s) = verdict (test s) (str s)
  safe_parse (integer lo) v = integral lo v
  safe_parse boolean (bool b) = some (bool b)
  safe_parse (one_of names) (str s) = verdict (one_named s names) (str s)
  safe_parse (array s least) (arr items) =
      if leb least (count items) then Option.map arr (each (safe_parse s) items) else none
  safe_parse (nullable s) v = or_else (safe_parse s v) (only_null v)
  safe_parse (object shape) (obj fields) =
      if only_known shape fields then Option.map obj (safe_shape shape fields) else none
  safe_parse _ v = none

  safe_shape : Shape → Fields → Option Fields
  safe_shape no_more fields = some end
  safe_shape (property k need s shape) fields =
      with_property k (parse_need (safe_parse s) need (lookup k fields)) (safe_shape shape fields)

each_lem : (s : Schema) (items : Items) → each (safe_parse s) items ≡ parse_items safe_parse s items
unfolding each
each_lem s nil = refl
each_lem s (cons v items) = rw (each_lem s items)

safe_shape_lem :
    (shape : Shape) (fields : Fields)
    → safe_shape shape fields ≡ parse_shape safe_parse shape fields
unfolding safe_shape
safe_shape_lem no_more fields = refl
safe_shape_lem (property k need s shape) fields = rw (safe_shape_lem shape fields)

refuses_null : (s : Schema) → takes_null s ≡ false → safe_parse s null ≡ none
unfolding safe_parse integral
refuses_null (string lo hi) h = refl
refuses_null (pattern test) h = refl
refuses_null (integer none) h = refl
refuses_null (integer (some lo)) h = refl
refuses_null boolean h = refl
refuses_null (one_of names) h = refl
refuses_null (array s least) h = refl
refuses_null (nullable s) h = cc
refuses_null (object shape) h = refl

pub zod : IsZod safe_parse
unfolding safe_parse integral
zod = record {
  string_law = λ lo hi s. refl;
  pattern_law = λ test s. refl;
  integer_law = λ lo n. refl;
  boolean_law = λ b. refl;
  one_of_law = λ names s. refl;
  array_law = λ s least items. rw (each_lem s items) refl;
  nullable_law = λ s v. refl;
  null_law = refuses_null;
  object_law = λ shape fields. rw (safe_shape_lem shape fields) refl;
}

found : resolve_manifest (python ∷ []) "py" none ≡ ok python
unfolding resolve_manifest code_runner.Contract.Manifests.answers_to
found = refl

abbrev pub request : ExecuteRequest
request = record {
  language = "py";
  version = none;
  files = main_py ∷ [];
  limits = some (record {
    wall_time_ms = some 1000;
    idle_ms = none;
    cpu_ms = none;
    memory_mb = none;
    pids = none;
    output_kb = none;
    max_artifacts = none;
    max_artifact_bytes = none;
  });
  collect_output = some true;
}

parse-request_json_example :
    safe_parse execute_request_schema (request_json request)
    ≡ verdict (request_fits request) (request_json (with_defaults request))
parse-request_json_example = parse-request_json safe_parse zod request

pub sent :
    safe_parse execute_request_schema (request_json request)
    ≡ some (request_json (with_defaults request))
unfolding request_fits code_runner.Api.Files.utf16_length
sent = parse-request_json safe_parse zod request

loaded : safe_parse manifest_schema (manifest_json python) ≡ some (manifest_json python)
unfolding code_runner.Schemas.Requests.manifest_fits code_runner.Api.Files.utf16_length
loaded = parse-manifest_json safe_parse zod python

pub files_pass : (validate_files (with_defaults request).files).error ≡ none
unfolding validate_files with_defaults check_file sanitize_workspace_path code_runner.Prelude.split
    code_runner.Api.Files.cleaned code_runner.Prelude.join code_runner.Api.Files.check_source
    code_runner.Api.Files.check_content
files_pass = refl

pub size_passes :
    gt_number (validate_files (with_defaults request).files).total_bytes config.max_files_bytes
    ≡ false
unfolding validate_files with_defaults check_file sanitize_workspace_path code_runner.Prelude.split
    code_runner.Api.Files.cleaned code_runner.Prelude.join code_runner.Api.Files.check_source
    code_runner.Api.Files.check_content
size_passes = refl

pub found_for :
    resolve_manifest (python ∷ []) (with_defaults request).language (with_defaults request).version
    ≡ ok python
unfolding with_defaults
found_for = found

abbrev pub admissible :
    IsAdmissible memory config (python ∷ []) ambient (valid (with_defaults request))
admissible = record {
  body = with_defaults request;
  parsed = refl;
  manifest = python;
  found = found_for;
  files = files_pass;
  size = size_passes;
}

answered :
    (execute memory config (python ∷ []) ambient (valid (with_defaults request)) idle).0.status
    ≡ 202
answered =
    (execute-accepted_iff memory config (python ∷ []) ambient (valid (with_defaults request))
        idle).1
      (admissible, refl)

execute-IsTyped_example :
    IsTyped safe_parse "job-1"
      (execute memory config (python ∷ []) ambient (valid (with_defaults request)) idle).1.db
      (execute memory config (python ∷ []) ambient (valid (with_defaults request)) idle).0.body
execute-IsTyped_example =
    execute-IsTyped safe_parse zod memory config (python ∷ []) ambient request idle 3599
      (loaded, tt) sent refl answered

abbrev hashes : List String
hashes =
    "sha256:0000000000000000000000000000000000000000000000000000000000000000"
    ∷ "sha256:aaaaaaaaaaaaaaaaaaaaaaaaaaaaaaaaaaaaaaaaaaaaaaaaaaaaaaaaaaaaaaaa" ∷ []

abbrev presign : String → ℕ → String
presign hash ttl = "https://store/put"

hashes_sent : safe_parse blob_check_request_schema (hashes_json hashes) ≡ some (hashes_json hashes)
unfolding safe_parse lookup code_runner.Prelude.Json.array each ref_re
hashes_sent = refl

handshake-IsTyped_example :
    let checked = (blobs_check memory presign true 60 30 7 (valid hashes) empty).0.body in
    let finalized = (blobs_finalize memory presign true 60 30 7 (valid hashes) empty).0.body in
    (safe_parse blob_check_response_schema checked ≡ some checked)
    × (safe_parse blob_finalize_response_schema finalized ≡ some finalized)
handshake-IsTyped_example =
    handshake-IsTyped safe_parse zod memory presign 60 30 7 (omega arith) hashes empty hashes_sent
