-- ===== src/Api/Blobs.antt =====
-- apps/api/src/routes/blobs.ts: the handshake on content-addressed blobs. The presigner is a
-- parameter; the two lifetimes are natural numbers, as BLOB_IDLE_TTL and BLOB_UPLOAD_URL_TTL are
-- meant to be.
pub mod Filled
pub mod Touch
pub mod Handshake
pub mod Typed
use code_runner.Prelude.{
  ℕ, ◌*◌, String, Bool, true, false, Option, none, some, List, [], ◌∷◌, ◌||◌, ◌==◌, any, show,
  if◌then◌else◌,
}
use code_runner.Prelude.Int.{ℤ, pos, ltb_ℤ}
use code_runner.Prelude.Json.{Json, str, arr, obj, end, field, array, error_body}
use code_runner.Prelude.State.{State, ◌>>=◌, ◌>>◌, pure, run, gets}
use code_runner.Redis.{Redis}
use code_runner.Contract.{BlobUpload, BlobCheckResponse, blob_meta, blob_index}
use code_runner.Api.Http.{Response, Validated, invalid, valid, validation_error}

abbrev pub not_configured : Response
not_configured = record {
  status = 501;
  body =
      error_body
        "blob store not configured: set BLOB_S3_PUBLIC_ENDPOINT/AWS_ENDPOINT_URL_S3, BLOB_S3_BUCKET/BUCKET_NAME, and AWS_* credentials to enable content-addressed blobs";
}

-- `seen.has(hash)`
unfoldable pub has : String → List String → Bool
has hash seen = any (λ h. h == hash) seen

unfoldable pub upload_json : BlobUpload → Json
upload_json u = obj (field "hash" (str u.hash) (field "uploadUrl" (str u.upload_url) end))

unfoldable pub check_json : BlobCheckResponse → Json
unfolding upload_json
check_json c = obj (
    field "missing" (arr (array upload_json c.missing))
      (field "present" (arr (array str c.present)) end))

unfoldable pub finalize_json : List String → Json
finalize_json hashes = obj (field "finalized" (arr (array str hashes)) end)

-- what a hash adds to the answer
abbrev pub add_missing : String → String → BlobCheckResponse → BlobCheckResponse
add_missing hash url c = record c { missing = record { hash = hash; upload_url = url } ∷ c.missing }

abbrev pub add_present : String → BlobCheckResponse → BlobCheckResponse
add_present hash c = record c { present = hash ∷ c.present }

module _ (r : Redis) (presign : String → ℕ → String) (configured : Bool)
    (idle_ttl_seconds upload_url_ttl_seconds created_ms : ℕ) where
  open r use {Db, exists, sadd, hsetnx, pttl, pexpire}

  -- the end of TOUCH_SCRIPT: the time to live is extended, never shortened
  extend : String → ℕ → ℤ → State Db ℤ
  extend meta req_ttl cur =
      if ltb_ℤ cur (pos 0) || ltb_ℤ cur (pos req_ttl)
      then (do run (pexpire meta req_ttl); pure (pos req_ttl))
      else pure cur

  -- TOUCH_SCRIPT, which Redis runs as one step
  pub touch : String → String → ℕ → ℕ → State Db ℤ
  unfolding extend
  touch hash size created req_ttl = do
    run (sadd blob_index hash)
    run (hsetnx (blob_meta hash) "size" size)
    run (hsetnx (blob_meta hash) "createdAtMs" (show created))
    cur ← gets (pttl (blob_meta hash))
    extend (blob_meta hash) req_ttl cur

  -- the calls of the script from the two routes
  pub touch_now : String → State Db ℤ
  touch_now hash = touch hash "0" created_ms (idle_ttl_seconds * 1000)

  -- one hash of the loop of /v1/blobs/check
  pub check_one : String → Bool → State Db (BlobCheckResponse → BlobCheckResponse)
  check_one hash true = do touch_now hash; pure (add_present hash)
  check_one hash false = pure (add_missing hash (presign hash upload_url_ttl_seconds))

  -- the loop, with the hashes seen so far
  pub check_from : List String → List String → State Db BlobCheckResponse
  check_from seen [] = pure (record { missing = []; present = [] })
  check_from seen (hash ∷ hashes) = elim (has hash seen) [
    | true ↦ check_from seen hashes
    | false ↦ do
      there ← gets (exists (blob_meta hash))
      add ← check_one hash there
      rest ← check_from (hash ∷ seen) hashes
      pure (add rest)
  ]

  -- POST /v1/blobs/check
  pub blobs_check : Validated (List String) → State Db Response
  blobs_check (invalid issues) = pure (validation_error issues)
  blobs_check (valid hashes) =
      if configured
      then (do body ← check_from [] hashes; pure (record { status = 200; body = check_json body }))
      else pure not_configured

  -- the loop of /v1/blobs/finalize
  pub finalize_from : List String → List String → State Db (List String)
  finalize_from seen [] = pure []
  finalize_from seen (hash ∷ hashes) = elim (has hash seen) [
    | true ↦ finalize_from seen hashes
    | false ↦ do touch_now hash; rest ← finalize_from (hash ∷ seen) hashes; pure (hash ∷ rest)
  ]

  -- POST /v1/blobs/finalize
  pub blobs_finalize : Validated (List String) → State Db Response
  blobs_finalize (invalid issues) = pure (validation_error issues)
  blobs_finalize (valid hashes) =
      if configured
      then (do
        finalized ← finalize_from [] hashes
        pure (record { status = 200; body = finalize_json finalized }))
      else pure not_configured
