-- ===== src/Example/Relay.antt =====
-- What the browser is told of an answer of the gateway, and of a call that fails.
use Prim.Native.String.{◌++◌}
use code_runner.Prelude.{
  ℕ, String, Bool, true, false, Option, some, List, ◌≡◌, ◌≢◌, refl, eqb, Bool-cases, inl, inr,
  arith, if◌then◌else◌,
}
use code_runner.Prelude.Json.{Json, str, obj, field, end}
use code_runner.Prelude.Result.{Result, ok, err}
use code_runner.Api.Http.{Response}
use code_runner.Sdk.Errors.{error_class, throw_for_status}
use code_runner.Sdk.Uri.{encode_uri_component}
use code_runner.Sdk.Client
use code_runner.Sdk.Client.{
  HttpRequest, HttpResponse, Body, json, empty, is_ok, request, ends_with,
  default_inline_threshold_bytes,
}
use code_runner.Sdk.Client.Answers.{http_of, outcome, request-answered}
use code_runner.Example.{
  ClientOptions, Server, JobRequest, execute, languages, start, stdin, stdin_close, kill, output,
  status, caught, job_call, serve, get_client,
}
use code_runner.Example.Replies.{handle, error_response, Caught}

-- The call of the gateway that stands behind each route, for a body that can be read.
abbrev pub IsReadable : JobRequest → Type 0
IsReadable (execute (err message)) = ⊥
IsReadable (stdin id (err message)) = ⊥
IsReadable _ = Unit

abbrev method_of : JobRequest → String
method_of languages = "GET"
method_of (output id) = "GET"
method_of (status id) = "GET"
method_of _ = "POST"

abbrev path_of : JobRequest → String
path_of (execute body) = "/v1/execute"
path_of languages = "/v1/languages"
path_of (start id) = "/v1/jobs/" ++ (encode_uri_component id ++ "/start")
path_of (stdin id chunk) = "/v1/jobs/" ++ (encode_uri_component id ++ "/stdin")
path_of (stdin_close id) = "/v1/jobs/" ++ (encode_uri_component id ++ "/stdin/close")
path_of (kill id) = "/v1/jobs/" ++ (encode_uri_component id ++ "/kill")
path_of (output id) = "/v1/jobs/" ++ (encode_uri_component id ++ "/output")
path_of (status id) = "/v1/jobs/" ++ (encode_uri_component id ++ "/status")

abbrev body_of : JobRequest → Body
body_of (execute (ok body)) = json body
body_of (stdin id (ok chunk)) = json (obj (field "chunk" (str chunk) end))
body_of _ = empty

-- The status for the browser: 200 for success, 502 for a refused token, else the gateway's own.
abbrev pub relayed : HttpResponse → ℕ
relayed res = if is_ok res then 200 else if eqb res.status 401 then 502 else res.status

error_status :
    (json_parse : String → Option Json) (type_error_text : String) (res : HttpResponse)
    (is_stdin : Bool)
    → (error_response type_error_text (
        Caught.sdk
          (Client.failed (throw_for_status json_parse res.status res.text is_stdin)))).status
      ≡ (if eqb res.status 401 then 502 else res.status)
unfolding error_response throw_for_status error_class
error_status json_parse type_error_text res is_stdin = ground arith

module _ {ℓ} (W : Type ℓ) (fetch : HttpRequest → W → Result String HttpResponse × W)
    (json_parse : String → Option Json) (sha256_hex : List ℕ → String)
    (injected : List (String × String)) (hmac_hex : String → String → String)
    (type_error_text : String) (env : String → Option String) where
  -- the request that a route makes of the gateway
  abbrev call_of : ClientOptions → JobRequest → HttpRequest
  call_of c req =
      http_of W fetch json_parse sha256_hex injected c.base_url c.token
        default_inline_threshold_bytes (method_of req) (path_of req) (body_of req)

  abbrev serves : JobRequest → Server W → Response × Server W
  serves = serve W fetch json_parse sha256_hex injected hmac_hex type_error_text env

  abbrev calls : JobRequest → Server W → Result Caught (Option Json) × Server W
  calls = job_call W fetch json_parse sha256_hex injected hmac_hex type_error_text env

  -- what the route gets of an answer
  abbrev told : ClientOptions → JobRequest → HttpResponse → Result Caught (Option Json)
  told c req res = caught (
      outcome W fetch json_parse sha256_hex injected c.base_url c.token
        default_inline_threshold_bytes (path_of req) res)

  answered :
      (c : ClientOptions) (req : JobRequest) (w : W) (res : HttpResponse) (w' : W)
      → fetch (call_of c req) w ≡ (ok res, w')
      → request W fetch json_parse sha256_hex injected c.base_url c.token
          default_inline_threshold_bytes
          (method_of req)
          (path_of req)
          (body_of req)
          w
        ≡ (
          outcome W fetch json_parse sha256_hex injected c.base_url c.token
              default_inline_threshold_bytes
              (path_of req)
              res,
          w',
        )
  answered c req w res w' h =
      request-answered W fetch json_parse sha256_hex injected c.base_url c.token
        default_inline_threshold_bytes (method_of req) (path_of req) (body_of req) w res w' h

  module _ (c : ClientOptions) (s : Server W) (held : s.client ≡ some c) where
    call-good :
        (req : JobRequest) (res : HttpResponse) (w' : W)
        → IsReadable req
        → fetch (call_of c req) s.world ≡ (ok res, w')
        → is_ok res ≡ true
        → ((serves req s).0.status ≡ 200) × ((serves req s).1 ≡ record s { world = w' })
    unfolding serve job_call get_client handle Client.execute Client.list_languages Client.start
        Client.send_stdin Client.close_stdin Client.kill Client.get_output Client.get_status
    call-good (execute (err message)) res w' r h good = absurd r
    call-good (stdin id (err message)) res w' r h good = absurd r
    call-good (execute (ok body)) res w' r h good =
        rw (held, answered c (execute (ok body)) s.world res w' h, good) (refl, refl)
    call-good (stdin id (ok chunk)) res w' r h good =
        rw (held, answered c (stdin id (ok chunk)) s.world res w' h, good) (refl, refl)
    call-good req res w' r h good = rw (held, answered c req s.world res w' h, good) (refl, refl)

    call-bad :
        (req : JobRequest) (res : HttpResponse) (w' : W)
        → IsReadable req
        → fetch (call_of c req) s.world ≡ (ok res, w')
        → is_ok res ≡ false
        → ((serves req s).0.status ≡ (if eqb res.status 401 then 502 else res.status))
          × ((serves req s).1 ≡ record s { world = w' })
    unfolding serve job_call get_client handle Client.execute Client.list_languages Client.start
        Client.send_stdin Client.close_stdin Client.kill Client.get_output Client.get_status
    call-bad (execute (err message)) res w' r h bad = absurd r
    call-bad (stdin id (err message)) res w' r h bad = absurd r
    call-bad (execute (ok body)) res w' r h bad =
        rw (held, answered c (execute (ok body)) s.world res w' h, bad)
          (
            error_status json_parse type_error_text res
                (ends_with "/stdin" (path_of (execute (ok body)))),
            refl,
          )
    call-bad (stdin id (ok chunk)) res w' r h bad =
        rw (held, answered c (stdin id (ok chunk)) s.world res w' h, bad)
          (
            error_status json_parse type_error_text res
                (ends_with "/stdin" (path_of (stdin id (ok chunk)))),
            refl,
          )
    call-bad req res w' r h bad =
        rw (held, answered c req s.world res w' h, bad)
          (error_status json_parse type_error_text res (ends_with "/stdin" (path_of req)), refl)

    -- With the client built and a body that can be read, each route makes one call of the gateway, and
    -- the browser sees how it went: 200 where it succeeded, 502 where the gateway refused the token,
    -- and the gateway's own status otherwise, so never a 401.
    pub serve-relayed :
        (req : JobRequest) (res : HttpResponse) (w' : W)
        → IsReadable req
        → fetch (call_of c req) s.world ≡ (ok res, w')
        → ((serves req s).0.status ≡ relayed res)
          × ((serves req s).1 ≡ record s { world = w' })
          × ((serves req s).0.status ≢ 401)
    serve-relayed req res w' r h = elim (Bool-cases (is_ok res)) [
      | inl good ↦
          let (code, after) = call-good req res w' r h good in
          (rw good code, after, ground (arith, code))
      | inr bad ↦
          let (code, after) = call-bad req res w' r h bad in
          (rw bad code, after, ground (arith, code))
    ]
