-- ===== src/Sdk/Client/Limits.antt =====
-- The gateway's limits, as the errors that stand for them at the client.
use Prim.Native.String.{◌++◌}
use text.Mathlib.TextLemmas.{nil-append, cons-append, append_assoc}
use code_runner.Prelude.{
  ℕ, String, true, false, Option, none, some, List, ◌≡◌, ◌≢◌, refl, sym, ap, ◌∙◌, arith, eq_iff,
  eq_refl, ◌==◌,
}
use code_runner.Prelude.Int.{Number}
use code_runner.Prelude.Json.{Json, num, str, obj, field, end, member, lookup}
use code_runner.Prelude.Result.{Result, ok, err}
use code_runner.Redis.{Redis}
use code_runner.Api.Http.{Gateway}
use code_runner.Api.Admission.{admission_error}
use code_runner.Api.Stdin.{too_many_frames, cap_exceeded, stdin_pending_byte_cap}
use code_runner.Sdk.Uri.{encode_uri_component}
use code_runner.Sdk.Errors.{ClientError, ErrorClass, throw_for_status, error_class, parsed_body}
use code_runner.Sdk.Client.{
  HttpRequest, HttpResponse, json, Thrown, failed, ends_with, send_stdin, execute,
}
use code_runner.Sdk.Client.Answers.{http_of, request-answered}

ends_with_self : (s : String) → ends_with s s ≡ true
unfolding ends_with
ends_with_self String.[] = refl
ends_with_self (String.◌∷◌ c s) = ground (arith, eq_refl (String.◌∷◌ c s))

ends_with-append : (p s : String) → ends_with s (p ++ s) ≡ true
unfolding ends_with
ends_with-append String.[] s = rw nil-append (ends_with_self s)
ends_with-append (String.◌∷◌ c p) s = rw cons-append (ground (arith, ends_with-append p s))

abbrev pub stdin_path : String → String
stdin_path id = "/v1/jobs/" ++ (encode_uri_component id ++ "/stdin")

-- The route of the input is told apart by its path, whatever the id.
is_stdin : (id : String) → ends_with "/stdin" (stdin_path id) ≡ true
is_stdin id =
    ap (ends_with "/stdin") (sym (append_assoc "/v1/jobs/" (encode_uri_component id) "/stdin"))
    ∙ ends_with-append ("/v1/jobs/" ++ encode_uri_component id) "/stdin"

-- an answer of 429
abbrev pub limited : String → HttpResponse
limited text = record { status = 429; text = text }

module _ {ℓ} (W : Type ℓ) (fetch : HttpRequest → W → Result String HttpResponse × W)
    (json_parse : String → Option Json) (sha256_hex : List ℕ → String)
    (injected : List (String × String)) (base_url token : String) (threshold : ℕ) where
  abbrev pub posted : String → Json → HttpRequest
  posted path body =
      http_of W fetch json_parse sha256_hex injected base_url token threshold "POST" path
        (json body)

  abbrev pub chunk_body : String → Json
  chunk_body chunk = obj (field "chunk" (str chunk) end)

  abbrev pub sending : String → String → W → Result Thrown (Unit {0}) × W
  sending = send_stdin W fetch json_parse sha256_hex injected base_url token threshold

  abbrev pub executing : Json → W → Result Thrown (Option Json) × W
  executing = execute W fetch json_parse sha256_hex injected base_url token threshold

  send_stdin-limited :
      (id chunk text : String) (w w' : W)
      → fetch (posted (stdin_path id) (chunk_body chunk)) w ≡ (ok (limited text), w')
      → sending id chunk w ≡ (err (failed (throw_for_status json_parse 429 text true)), w')
  unfolding send_stdin
  send_stdin-limited id chunk text w w' h =
      rw
        (request-answered W fetch json_parse sha256_hex injected base_url token threshold "POST"
          (stdin_path id) (json (chunk_body chunk)) w (limited text) w' h)
        (ap (λ b. (err (failed (throw_for_status json_parse 429 text b)), w')) (is_stdin id))

  execute-limited :
      (req : Json) (text : String) (w w' : W)
      → fetch (posted "/v1/execute" req) w ≡ (ok (limited text), w')
      → executing req w ≡ (err (failed (throw_for_status json_parse 429 text false)), w')
  unfolding execute ends_with
  execute-limited req text w w' h =
      request-answered W fetch json_parse sha256_hex injected base_url token threshold "POST"
        "/v1/execute" (json req) w (limited text) w' h

  parsed_body_named :
      (text : String) (body : Json)
      → text ≢ ""
      → json_parse text ≡ some body
      → parsed_body json_parse text ≡ some body
  unfolding parsed_body
  parsed_body_named text body apart h =
      let named : (text == "") ≡ false = ground (arith, eq_iff text "") in rw (named, h) refl

  -- Where the gateway answers a call of `sendStdin` or of `execute` with one of its three bodies for
  -- a 429, and JSON.parse gives back what it wrote, which is not the empty text, the call rejects with
  -- the error that stands for it, whatever the id, the chunk and the request. Too many frames become a
  -- RateLimitError with the time to wait, the pending-byte cap a RateLimitError with the cap, and a
  -- full queue a CapacityError with the time to wait and the body.
  pub request_limits :
      (r : Redis) (depth : ℕ) (limit : Number) (g : Gateway r.Db) (id chunk : String) (req : Json)
      (frames cap_text full : String) (a b c a' b' c' : W)
      → frames ≢ ""
      → cap_text ≢ ""
      → full ≢ ""
      → json_parse frames ≡ some too_many_frames.body
      → json_parse cap_text ≡ some cap_exceeded.body
      → json_parse full ≡ some (admission_error r depth limit g).0.body
      → fetch (posted (stdin_path id) (chunk_body chunk)) a ≡ (ok (limited frames), a')
      → fetch (posted (stdin_path id) (chunk_body chunk)) b ≡ (ok (limited cap_text), b')
      → fetch (posted "/v1/execute" req) c ≡ (ok (limited full), c')
      → ((e : ClientError) × (sending id chunk a ≡ (err (failed e), a'))
          × (e.class ≡ ErrorClass.rate_limit)
          × (e.retry_after_ms ≡ some (num 1000))
          × (e.cap_bytes ≡ none)
          × (e.message ≡ "Too many stdin frames"))
        × ((e : ClientError) × (sending id chunk b ≡ (err (failed e), b'))
            × (e.class ≡ ErrorClass.rate_limit)
            × (e.retry_after_ms ≡ none)
            × (e.cap_bytes ≡ some (num stdin_pending_byte_cap)))
        × ((e : ClientError) × (executing req c ≡ (err (failed e), c'))
            × (e.class ≡ ErrorClass.capacity)
            × (e.retry_after_ms ≡ some (num 1000))
            × (e.body ≡ some (admission_error r depth limit g).0.body)
            × (e.cap_bytes ≡ none))
  unfolding throw_for_status error_class member lookup code_runner.Sdk.Errors.to_text
      admission_error
  request_limits r depth limit g id chunk req frames cap_text full a b c a' b' c' h k l e f i sa sb
        sc =
      let p = parsed_body_named frames _ h e in
      let q = parsed_body_named cap_text _ k f in
      let s = parsed_body_named full _ l i in
      (
        (
          throw_for_status json_parse 429 frames true,
          send_stdin-limited id chunk frames a a' sa,
          refl,
          rw p refl,
          rw p refl,
          rw p refl,
        ),
        (
          throw_for_status json_parse 429 cap_text true,
          send_stdin-limited id chunk cap_text b b' sb,
          refl,
          rw q refl,
          rw q refl,
        ),
        (
          throw_for_status json_parse 429 full false,
          execute-limited req full c c' sc,
          refl,
          rw s refl,
          s,
          refl,
        ),
      )
