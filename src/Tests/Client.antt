-- ===== src/Tests/Client.antt =====
-- The theorems on the Node client at concrete inputs.
use code_runner.Prelude.{
  ℕ, String, Bool, includes, true, false, Option, none, some, List, [], ◌∷◌, ◌≡◌, ◌==◌, refl,
  if◌then◌else◌,
}
use code_runner.Prelude.Json.{Json, null, num, str, arr, obj, nil, cons, end, field}
use code_runner.Prelude.Result.{Result, ok, err}
use code_runner.Api.Stdin.{too_many_frames, cap_exceeded, stdin_pending_byte_cap}
use code_runner.Sdk.Errors.{ClientError, ErrorClass}
use Prim.Native.String.{◌++◌}
use code_runner.Sdk.ChannelAuth.{sign_channel_auth}
use code_runner.Sdk.Client.{HttpRequest, HttpResponse, blobs_check, sha256_ref, upload_blob}
use code_runner.Sdk.Client.Uploads.{IsChecked, upload_blob-IsChecked}
use code_runner.Sdk.Client.Limits.{limited, sending, executing, request_limits}
use code_runner.Sdk.Client.{failed}
use code_runner.Prelude.Int.{pos, int}
use code_runner.Redis.Memory.{memory}
use code_runner.Api.Admission.{admission_error}
use code_runner.Tests.Fixtures.{idle}

-- a server that finds everything in order, and asks for the blob with the digest "h"
abbrev agreeable : HttpRequest → Unit {0} → Result String HttpResponse × Unit {0}
agreeable req w = (ok (record { status = 200; text = "{}" }), w)

abbrev asks_for_h : String → Option Json
asks_for_h text = some (
    obj (
      field "missing"
        (arr (
          cons (obj (field "hash" (str "sha256:h") (field "uploadUrl" (str "http://store/h") end)))
            nil))
        end))

abbrev hex : List ℕ → String
hex buffer = "h"

abbrev buffer : List ℕ
buffer = 1 ∷ 2 ∷ []

uploaded :
    (upload_blob Unit agreeable asks_for_h hex [] "http://gateway/" "secret" 1 buffer tt).0
    ≡ ok "sha256:h"
unfolding upload_blob blobs_check code_runner.Sdk.Client.request code_runner.Prelude.Json.member
    code_runner.Sdk.Client.put_missing code_runner.Sdk.Client.blobs_finalize
uploaded = refl

upload_blob-IsChecked_example :
    ("sha256:h" ≡ sha256_ref Unit agreeable asks_for_h hex [] "http://gateway/" "secret" 1 buffer)
    × ((v : Option Json) × ((blobs_check Unit agreeable asks_for_h hex [] "http://gateway/" "secret"
            1
            (sha256_ref Unit agreeable asks_for_h hex [] "http://gateway/" "secret" 1 buffer ∷ [])
            tt).0
          ≡ ok v)
        × IsChecked Unit agreeable asks_for_h hex [] "http://gateway/" "secret" 1 buffer v
            (blobs_check Unit agreeable asks_for_h hex [] "http://gateway/" "secret" 1
              (sha256_ref Unit agreeable asks_for_h hex [] "http://gateway/" "secret" 1 buffer ∷ [])
              tt).1
            tt)
upload_blob-IsChecked_example =
    upload_blob-IsChecked Unit agreeable asks_for_h hex [] "http://gateway/" "secret" 1 buffer tt
      "sha256:h" tt uploaded refl

abbrev reads_back : String → Option Json
reads_back text =
    if text == "frames"
    then some too_many_frames.body
    else if text == "cap"
    then some cap_exceeded.body
    else some (admission_error memory 5 (int (pos 5)) idle).0.body

-- a gateway that answers 429 with the text that the world holds
abbrev limiting : HttpRequest → String → Result String HttpResponse × String
limiting req text = (ok (limited text), text)

request_limits_example :
    ((e : ClientError) × (sending String limiting reads_back hex [] "http://gateway" "secret" 2 "j"
          "x" "frames"
        ≡ (err (failed e), "frames"))
      × (e.class ≡ ErrorClass.rate_limit)
      × (e.retry_after_ms ≡ some (num 1000))
      × (e.cap_bytes ≡ none)
      × (e.message ≡ "Too many stdin frames"))
    × ((e : ClientError) × (sending String limiting reads_back hex [] "http://gateway" "secret" 2
            "j" "x" "cap"
          ≡ (err (failed e), "cap"))
        × (e.class ≡ ErrorClass.rate_limit)
        × (e.retry_after_ms ≡ none)
        × (e.cap_bytes ≡ some (num stdin_pending_byte_cap)))
    × ((e : ClientError) × (executing String limiting reads_back hex [] "http://gateway" "secret" 2
            null "full"
          ≡ (err (failed e), "full"))
        × (e.class ≡ ErrorClass.capacity)
        × (e.retry_after_ms ≡ some (num 1000))
        × (e.body ≡ some (admission_error memory 5 (int (pos 5)) idle).0.body)
        × (e.cap_bytes ≡ none))
request_limits_example =
    request_limits String limiting reads_back hex [] "http://gateway" "secret" 2 memory 5
      (int (pos 5)) idle "j" "x" null "frames" "cap" "full" "frames" "cap" "full" "frames" "cap"
      "full" (λ e. cc) (λ e. cc) (λ e. cc) refl refl refl refl refl refl

abbrev signature : String → String → String
signature secret text = secret ++ text

-- a validation that looks for the dot of a socket id
abbrev valid : String → String → Bool
valid socket_id channel_name = includes socket_id "."

abbrev pusher : Json → String → Result String Json
pusher (str socket_id) channel_name =
    if valid socket_id channel_name
    then ok (
        obj (
          field "auth" (str (sign_channel_auth signature "key" "secret" socket_id channel_name))
            end))
    else err "Invalid socket id"
pusher _ channel_name = err "Invalid socket id"

abbrev asked_for : String → String → Option Json
asked_for socket_id channel_name =
    some (obj (field "socket_id" (str socket_id) (field "channel_name" (str channel_name) end)))
