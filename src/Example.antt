-- ===== src/Example.antt =====
-- apps/example-with-nextjs/app/api and app/lib: the backend that holds the bearer token for the
-- browser. Each route hands one call on to the client of the SDK. Next.js and the environment are
-- outside: `process.env` is a function, a request comes as what `req.json()`, `req.formData()` and the
-- path give, the error of a body that cannot be read as its message.
pub mod Replies
pub mod Relay
pub mod Authorization
use Prim.Native.String.{◌++◌}
use Replies.{Caught, sdk, error, json_response, error_response, ok_json, handle}
use mathlib.Core.Option
use code_runner.Prelude.{
  ℕ, String, true, Bool, Option, none, some, List, includes, or_default, ◌==◌, ◌||◌, ◌&&◌, not,
  is_some, if◌then◌else◌,
}
use code_runner.Prelude.Json.{
  Json, null, bool, str, arr, obj, Fields, end, field, given, error_body, Items, nil, cons, lookup,
  member, truthy, or_empty,
}
use code_runner.Prelude.Result.{Result, ok, err}
use code_runner.Api.Http.{Response}
use code_runner.Sdk.Errors.{ClientError, ErrorClass, to_text}
use code_runner.Sdk.Client
use code_runner.Sdk.Client.{HttpRequest, HttpResponse, Thrown, rejected, failed, type_error, Call}
use code_runner.Sdk.ChannelAuth.{create_channel_authorizer}

-- the options of the two singletons
pub record ClientOptions : Type 0 where
  pub base_url : String
  pub token : String

pub record AuthorizerOptions : Type 0 where
  pub app_key : String
  pub app_secret : String

-- the modules' state, beside the world that `fetch` reaches
pub record Server {ℓ} (W : Type ℓ) : Type ℓ where
  pub world : W
  pub client : Option ClientOptions
  pub authorizer : Option AuthorizerOptions

-- the two entries of a form, each as the text that `String` makes of it
pub record AuthForm : Type 0 where
  pub socket_id : Option String
  pub channel_name : Option String

-- a channel authorization, in JSON of any shape or in a form
pub record AuthRequest : Type 0 where
  pub content_type : Option String
  pub json : Result String Json
  pub form_data : Result String AuthForm

-- the two parameters; those of a JSON body are not checked to be texts
pub record AuthParams : Type 0 where
  pub socket_id : Json
  pub channel_name : Json

pub data JobRequest : Type 0 where
  execute : Result String Json → JobRequest
  languages : JobRequest
  start stdin_close kill output status : String → JobRequest
  stdin : String → Result String String → JobRequest

-- Whether a template can hold a value of JSON: an object with a field named toString has no text.
unfoldable mutual
  pub has_text : Json → Bool
  has_text (obj fields) = not (is_some (lookup "toString" fields))
  has_text (arr items) = all_have_text items
  has_text _ = true

  pub all_have_text : Items → Bool
  all_have_text nil = true
  all_have_text (cons v rest) = has_text v && all_have_text rest

abbrev pub missing_text : String → String
missing_text name =
    "Missing env var " ++ (name ++ ". Copy .env.example to .env.local and fill it in.")

abbrev missing_variable : String → Caught
missing_variable name = error (missing_text name)

unfoldable pub required : (String → Option String) → String → Result Caught String
required env name = elim (env name) [
  | none ↦ err (missing_variable name)
  | some v ↦ if v == "" then err (missing_variable name) else ok v
]

abbrev caught : {A : Type 0} → Result Thrown A → Result Caught A
caught (ok a) = ok a
caught (err e) = err (sdk e)

abbrev done : Result Caught (Unit {0}) → Result Caught (Option Json)
done (ok _) = ok (some ok_json)
done (err e) = err e

module _ {ℓ} (W : Type ℓ) (fetch : HttpRequest → W → Result String HttpResponse × W)
    (json_parse : String → Option Json) (sha256_hex : List ℕ → String)
    (injected : List (String × String)) (hmac_hex : String → String → String)
    (type_error_text : String) (env : String → Option String) where
  abbrev made : Server W → Result Caught String → Result Caught ClientOptions × Server W
  made s (err e) = (err e, s)
  made s (ok token) =
      let c : ClientOptions = record {
        base_url = or_default (env "CODE_RUNNER_API_URL") "http://localhost:8080";
        token = token;
      } in
      (ok c, record s { client = some c })

  unfoldable pub get_client : Server W → Result Caught ClientOptions × Server W
  unfolding required
  get_client s = elim s.client [
    | some c ↦ (ok c, s)
    | none ↦ made s (required env "EXECUTOR_API_TOKEN")
  ]

  abbrev calling :
      {A : Type 0}
      → (ClientOptions → W → Result Thrown A × W)
      → Result Caught ClientOptions × Server W
      → Result Caught A × Server W
  calling call (err e, s) = (err e, s)
  calling call (ok c, s) = let (a, w) = call c s.world in (caught a, record s { world = w })

  abbrev threshold : ℕ
  threshold = Client.default_inline_threshold_bytes

  abbrev with_ok : Result Caught (Unit {0}) × Server W → Result Caught (Option Json) × Server W
  with_ok (r, s) = (done r, s)

  -- what each route passes to `handle`
  post_execute : Result String Json → Server W → Result Caught (Option Json) × Server W
  post_execute (err message) s = (err (error message), s)
  post_execute (ok body) s =
      calling
        (λ c.
          Client.execute W fetch json_parse sha256_hex injected c.base_url c.token threshold body)
        (get_client s)

  get_languages : Server W → Result Caught (Option Json) × Server W
  get_languages s =
      calling
        (λ c.
          Client.list_languages W fetch json_parse sha256_hex injected c.base_url c.token threshold)
        (get_client s)

  post_stdin : String → Result String String → Server W → Result Caught (Option Json) × Server W
  post_stdin id (err message) s = (err (error message), s)
  post_stdin id (ok chunk) s = with_ok (
      calling
        (λ c.
          Client.send_stdin W fetch json_parse sha256_hex injected c.base_url c.token threshold id
            chunk)
        (get_client s))

  post_start : String → Server W → Result Caught (Option Json) × Server W
  post_start id s = with_ok (
      calling
        (λ c. Client.start W fetch json_parse sha256_hex injected c.base_url c.token threshold id)
        (get_client s))

  post_stdin_close : String → Server W → Result Caught (Option Json) × Server W
  post_stdin_close id s = with_ok (
      calling
        (λ c.
          Client.close_stdin W fetch json_parse sha256_hex injected c.base_url c.token threshold id)
        (get_client s))

  post_kill : String → Server W → Result Caught (Option Json) × Server W
  post_kill id s = with_ok (
      calling
        (λ c. Client.kill W fetch json_parse sha256_hex injected c.base_url c.token threshold id)
        (get_client s))

  get_output : String → Server W → Result Caught (Option Json) × Server W
  get_output id s =
      calling
        (λ c.
          Client.get_output W fetch json_parse sha256_hex injected c.base_url c.token threshold id)
        (get_client s)

  get_status : String → Server W → Result Caught (Option Json) × Server W
  get_status id s =
      calling
        (λ c.
          Client.get_status W fetch json_parse sha256_hex injected c.base_url c.token threshold id)
        (get_client s)

  unfoldable pub job_call : JobRequest → Server W → Result Caught (Option Json) × Server W
  unfolding get_client post_execute get_languages post_stdin post_start post_stdin_close post_kill
      get_output get_status
  job_call (execute body) s = post_execute body s
  job_call languages s = get_languages s
  job_call (start id) s = post_start id s
  job_call (stdin id chunk) s = post_stdin id chunk s
  job_call (stdin_close id) s = post_stdin_close id s
  job_call (kill id) s = post_kill id s
  job_call (output id) s = get_output id s
  job_call (status id) s = get_status id s

  unfoldable pub serve : JobRequest → Server W → Response × Server W
  unfolding job_call
  serve req s = let (r, s') = job_call req s in (handle type_error_text r, s')

  -- the key is asked for first
  keys_of : Result Caught String → Result Caught String → Result Caught AuthorizerOptions
  keys_of (err e) _ = err e
  keys_of (ok key) (err e) = err e
  keys_of (ok key) (ok secret) = ok (record { app_key = key; app_secret = secret })

  kept : Result Caught AuthorizerOptions → Server W → Result Caught AuthorizerOptions × Server W
  kept (err e) s = (err e, s)
  kept (ok a) s = (ok a, record s { authorizer = some a })

  unfoldable pub get_channel_authorizer : Server W → Result Caught AuthorizerOptions × Server W
  unfolding keys_of kept required
  get_channel_authorizer s = elim s.authorizer [
    | some a ↦ (ok a, s)
    | none ↦ kept (keys_of (required env "SOKETI_APP_KEY") (required env "SOKETI_APP_SECRET")) s
  ]

  -- socketId and channelName, empty where they are missing; null has no fields to read
  params_of : Result String Json → Result Caught AuthParams
  unfolding member
  params_of (err message) = err (error message)
  params_of (ok null) = err (sdk type_error)
  params_of (ok body) = ok (record {
    socket_id = or_empty (member "socket_id" (some body));
    channel_name = or_empty (member "channel_name" (some body));
  })

  form_params : Result String AuthForm → Result Caught AuthParams
  form_params (err message) = err (error message)
  form_params (ok f) = ok (record {
    socket_id = str (or_default f.socket_id "");
    channel_name = str (or_default f.channel_name "");
  })

  unfoldable pub read_auth_params : AuthRequest → Result Caught AuthParams
  unfolding params_of form_params includes
  read_auth_params req =
      if includes (or_default req.content_type "") "application/json"
      then params_of req.json
      else form_params req.form_data

  -- the text of the socket id is made last, and is a TypeError where there is none
  signed : Json → Result String String → Response
  signed socket_id (ok auth) =
      if has_text socket_id
      then json_response 200 (obj (field "auth" (str auth) end))
      else error_response type_error_text (sdk type_error)
  signed socket_id (err message) = error_response type_error_text (error message)

  -- the authorizer, on a channel name that `startsWith` needs to be a text
  authorizing : AuthorizerOptions → Json → Json → Response
  unfolding signed to_text
  authorizing a socket_id (str channel_name) =
      signed socket_id
        (create_channel_authorizer hmac_hex a.app_key a.app_secret (to_text socket_id) channel_name)
  authorizing a socket_id _ = error_response type_error_text (sdk type_error)

  authorize : AuthParams → Result Caught AuthorizerOptions × Server W → Response × Server W
  unfolding authorizing
  authorize p (err e, s) = (error_response type_error_text e, s)
  authorize p (ok a, s) = (authorizing a p.socket_id p.channel_name, s)

  checked : Result Caught AuthParams → Server W → Response × Server W
  unfolding authorize get_channel_authorizer
  checked (err e) s = (error_response type_error_text e, s)
  checked (ok p) s =
      if not (truthy p.socket_id) || not (truthy p.channel_name)
      then (json_response 400 (error_body "socket_id and channel_name are required"), s)
      else authorize p (get_channel_authorizer s)

  -- POST /api/channel-auth
  unfoldable pub channel_auth : AuthRequest → Server W → Response × Server W
  unfolding checked read_auth_params
  channel_auth req s = checked (read_auth_params req) s
