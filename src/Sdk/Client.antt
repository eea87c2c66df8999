-- ===== src/Sdk/Client.antt =====
-- packages/code-runner-sdk-node/src/client.ts. The given `fetch` is a parameter, a function on a
-- world of its own, as are `JSON.parse`, the digest of `createHash("sha256")` and the headers that
-- OpenTelemetry injects. What the source throws, and what a promise rejects with, is the error of a
-- `Result`.
pub mod Uploads
pub mod Accepted
pub mod Answers
pub mod Limits
use Prim.Native.Char.{code}
use Prim.Native.String.{◌++◌}
use Prim.Native.String
use mathlib.Core.List
use code_runner.Prelude.{
  ℕ, suc, ◌+◌, ◌*◌, ◌/◌, ◌%◌, ◌-◌, String, Bool, true, false, ◌&&◌, ◌||◌, Option, none, some, List,
  [], ◌∷◌, ◌==◌, leb, ltb, eqb, any, length, or_default, show, trim_slashes, if◌then◌else◌,
}
use code_runner.Prelude.Json.{
  Json, null, str, arr, obj, Items, Fields, nil, cons, end, field, array, member,
}
use code_runner.Prelude.Result.{Result, ok, err}
use code_runner.Contract.{FileInput, BlobUpload, file_json}
use code_runner.Sdk.Uri.{encode_uri_component}
use code_runner.Sdk.Errors.{ClientError, ErrorClass, throw_for_status}
use code_runner.Sdk.Files.{SdkFileInput, wire, binary, name_of, to_file_input, char_at}

-- DEFAULT_INLINE_THRESHOLD_BYTES
abbrev pub default_inline_threshold_bytes : ℕ
default_inline_threshold_bytes = 256 * 1024

pub data Body : Type 0 where
  empty : Body
  json : Json → Body
  bytes : List ℕ → Body

pub record HttpRequest : Type 0 where
  pub method : String
  pub url : String
  pub headers : List (String × String)
  pub body : Body

pub record HttpResponse : Type 0 where
  pub status : ℕ
  pub text : String

-- `res.ok`
abbrev pub is_ok : HttpResponse → Bool
is_ok res = leb 200 res.status && leb res.status 299

-- What a call may throw: what `fetch` rejects with, an error of the client, or a TypeError.
pub data Thrown : Type 0 where
  rejected : String → Thrown
  failed : ClientError → Thrown
  type_error : Thrown

-- `s.endsWith(suffix)`
unfoldable pub ends_with : String → String → Bool
ends_with suffix String.[] = suffix == ""
ends_with suffix (String.◌∷◌ c s) = String.◌∷◌ c s == suffix || ends_with suffix s

-- `isLargeBinary`
unfoldable pub is_large_binary : ℕ → SdkFileInput → Bool
is_large_binary threshold (wire f) = false
is_large_binary threshold (binary name buffer) = ltb threshold (length buffer)

-- the `missing` array of the answer, read as the code reads it: an entry is its two fields
upload_of : Json → BlobUpload
upload_of entry = record {
  hash = text_or (member "hash" (some entry));
  upload_url = text_or (member "uploadUrl" (some entry));
}
  where
    text_or : Option Json → String
    text_or (some (str s)) = s
    text_or _ = ""

-- `find` over the array, to the first entry with the hash; reading a field of null throws
unfoldable pub find_missing : String → Items → Result Thrown (Option BlobUpload)
unfolding upload_of
find_missing ref nil = ok none
find_missing ref (cons null rest) = err type_error
find_missing ref (cons entry rest) =
    let later = find_missing ref rest in
    if (upload_of entry).hash == ref then ok (some (upload_of entry)) else later

module _ {ℓ} (W : Type ℓ) (fetch : HttpRequest → W → Result String HttpResponse × W)
    (json_parse : String → Option Json) (sha256_hex : List ℕ → String)
    (injected : List (String × String)) (base_url token : String) (inline_threshold_bytes : ℕ) where
  -- an `async` method
  abbrev pub Call : Type 0 → Type ℓ
  Call A = W → Result Thrown A × W

  abbrev pub return : {A : Type 0} → A → Call A
  return a w = (ok a, w)

  abbrev pub throw : {A : Type 0} → Thrown → Call A
  throw e w = (err e, w)

  abbrev settled : {A B : Type 0} → (A → Call B) → Result Thrown A × W → Result Thrown B × W
  settled k (ok a, w) = k a w
  settled k (err e, w) = (err e, w)

  -- `await`
  abbrev pub await : {A B : Type 0} → Call A → (A → Call B) → Call B
  await m k w = settled k (m w)

  abbrev fetched : Result String HttpResponse × W → Result Thrown HttpResponse × W
  fetched (ok res, w) = (ok res, w)
  fetched (err e, w) = (err (rejected e), w)

  abbrev pub call_fetch : HttpRequest → Call HttpResponse
  call_fetch req w = fetched (fetch req w)

  unfoldable pub headers_for : String → Body → List (String × String)
  headers_for path body =
      List.◌++◌ (("Authorization", "Bearer " ++ token) ∷ content_type body)
        (if path == "/v1/execute" then injected else [])
    where
      content_type : Body → List (String × String)
      content_type empty = []
      content_type _ = ("Content-Type", "application/json") ∷ []

  -- the value of a 2xx answer, undefined where there is none to read
  unfoldable pub answer_of : HttpResponse → Option Json
  answer_of res = if eqb res.status 204 || res.text == "" then none else json_parse res.text

  -- `request`
  unfoldable pub request : String → String → Body → Call (Option Json)
  unfolding trim_slashes ends_with headers_for answer_of
  request method path body =
      await
        (call_fetch (record {
          method = method;
          url = trim_slashes base_url ++ path;
          headers = headers_for path body;
          body = body;
        }))
        (λ res.
          if is_ok res
          then return (answer_of res)
          else throw
              (failed (throw_for_status json_parse res.status res.text (ends_with "/stdin" path))))

  abbrev job_path : String → String → String
  job_path id tail = "/v1/jobs/" ++ (encode_uri_component id ++ tail)

  abbrev ignore : Call (Option Json) → Call (Unit {0})
  ignore m = await m (λ _. return tt)

  unfoldable pub list_languages : Call (Option Json)
  list_languages = request "GET" "/v1/languages" empty

  unfoldable pub execute : Json → Call (Option Json)
  execute req = request "POST" "/v1/execute" (json req)

  unfoldable pub get_job : String → Call (Option Json)
  get_job id = request "GET" (job_path id "") empty

  unfoldable pub get_status : String → Call (Option Json)
  get_status id = request "GET" (job_path id "/status") empty

  unfoldable pub get_output : String → Call (Option Json)
  get_output id = request "GET" (job_path id "/output") empty

  unfoldable pub start : String → Call (Unit {0})
  start id = ignore (request "POST" (job_path id "/start") empty)

  unfoldable pub send_stdin : String → String → Call (Unit {0})
  send_stdin id chunk =
      ignore (request "POST" (job_path id "/stdin") (json (obj (field "chunk" (str chunk) end))))

  unfoldable pub close_stdin : String → Call (Unit {0})
  close_stdin id = ignore (request "POST" (job_path id "/stdin/close") empty)

  unfoldable pub kill : String → Call (Unit {0})
  kill id = ignore (request "POST" (job_path id "/kill") empty)

  abbrev hashes_body : List String → Body
  hashes_body hashes = json (obj (field "hashes" (arr (array str hashes)) end))

  unfoldable pub blobs_check : List String → Call (Option Json)
  blobs_check hashes = request "POST" "/v1/blobs/check" (hashes_body hashes)

  unfoldable pub blobs_finalize : List String → Call (Option Json)
  blobs_finalize hashes = request "POST" "/v1/blobs/finalize" (hashes_body hashes)

  unfoldable pub sha256_ref : List ℕ → String
  sha256_ref buffer = "sha256:" ++ sha256_hex buffer

  -- the error of a PUT that did not succeed
  unfoldable pub put_error : String → ℕ → ClientError
  put_error ref status = record {
    class = ErrorClass.base;
    message = "Blob upload failed for " ++ (ref ++ (": PUT returned " ++ show status));
    status = status;
    body = none;
    retry_after_ms = none;
    cap_bytes = none;
  }

  -- the PUT of the missing bytes and what follows it
  unfoldable pub put_missing : List ℕ → String → String → Call String
  unfolding put_error
  put_missing buffer ref upload_url =
      await
        (call_fetch
          (record { method = "PUT"; url = upload_url; headers = []; body = bytes buffer }))
        (λ res.
          if is_ok res
          then await (blobs_finalize (ref ∷ [])) (λ _. return ref)
          else throw (failed (put_error ref res.status)))

  unfoldable pub upload_found : List ℕ → String → Option BlobUpload → Call String
  upload_found buffer ref none = return ref
  upload_found buffer ref (some missing) = put_missing buffer ref missing.upload_url

  -- by what `checked.missing` is: an array, or something that has no `find`
  unfoldable pub upload_checked : List ℕ → String → Option Json → Call String
  unfolding upload_found find_missing
  upload_checked buffer ref (some (arr entries)) w =
      settled (upload_found buffer ref) (find_missing ref entries, w)
  upload_checked buffer ref _ w = throw type_error w

  -- `uploadBlob`, the ref
  unfoldable pub upload_blob : List ℕ → Call String
  unfolding sha256_ref upload_checked
  upload_blob buffer =
      await (blobs_check (sha256_ref buffer ∷ []))
        (λ checked. upload_checked buffer (sha256_ref buffer) (member "missing" checked))

  -- one file of `normalizeFilesWithCas`
  unfoldable pub normalize_file : SdkFileInput → Call FileInput
  unfolding upload_blob is_large_binary
  normalize_file (wire f) = return (to_file_input (wire f))
  normalize_file (binary name buffer) =
      if is_large_binary inline_threshold_bytes (binary name buffer)
      then await (upload_blob buffer)
          (λ ref. return (record { name = name; content = none; encoding = none; ref = some ref }))
      else return (to_file_input (binary name buffer))

  unfoldable pub normalize_files_with_cas : List SdkFileInput → Call (List FileInput)
  unfolding normalize_file
  normalize_files_with_cas [] = return []
  normalize_files_with_cas (f ∷ fs) =
      await (normalize_file f)
        (λ out. await (normalize_files_with_cas fs) (λ rest. return (out ∷ rest)))

  -- `{ ...req, files }` for a request without files
  abbrev with_files : Fields → List FileInput → Fields
  with_files end files = field "files" (arr (array file_json files)) end
  with_files (field name value rest) files = field name value (with_files rest files)

  unfoldable pub execute_files : Fields → List SdkFileInput → Call (Option Json)
  unfolding normalize_files_with_cas
  execute_files req files =
      await (normalize_files_with_cas files)
        (λ normalized. execute (obj (with_files req normalized)))
