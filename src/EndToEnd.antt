-- ===== src/EndToEnd.antt =====
-- The client of packages/code-runner-sdk-node/src/client.ts on the gateway of apps/api/src/app.ts: the
-- `fetch` of the one is a request to the other. What Hono and zod make of an HTTP request, and
-- `JSON.stringify`, are parameters.
pub mod Gateway
pub mod Submit
use Prim.Native.String.{◌++◌}
use code_runner.Prelude.{
  ℕ, String, Option, none, some, List, [], ◌∷◌, ◌≡◌, ◌≢◌, ◌==◌, trim_slashes, if◌then◌else◌,
}
use code_runner.Prelude.Json.{Json}
use code_runner.Prelude.Result.{Result, ok}
use code_runner.Redis.{Redis}
use code_runner.Contract.{ExecuteRequest}
use code_runner.Api.Http.{Response, Validated, valid}
use code_runner.Api.Config.{Config}
use code_runner.Api.Execute.{Ambient}
use code_runner.Api.Routes.{Endpoint, Route, Incoming, Reply}
use code_runner.Api.App.{AppState, app}
use code_runner.Schemas.{execute_request_schema}
use code_runner.Schemas.Zod.{Schema}
use code_runner.Schemas.Requests.{request_json, with_defaults}
use code_runner.Sdk.Uri.{encode_uri_component}
use code_runner.Sdk.Client.{HttpRequest, HttpResponse, Body, json, empty}

-- `c.req.header("Authorization")`
abbrev pub authorization_of : List (String × String) → Option String
authorization_of [] = none
authorization_of ((name, value) ∷ headers) =
    if name == "Authorization" then some value else authorization_of headers

abbrev pub post : String → List (String × String) → Json → HttpRequest
post base headers body = record {
  method = "POST";
  url = trim_slashes base ++ "/v1/execute";
  headers = headers;
  body = json body;
}

abbrev pub pull : String → List (String × String) → String → HttpRequest
pull base headers id = record {
  method = "GET";
  url = trim_slashes base ++ ("/v1/jobs/" ++ (encode_uri_component id ++ "/status"));
  headers = headers;
  body = empty;
}

-- What Hono and the validator document of a submission and of the pull of its status: the header that
-- is handed on, the body as the schema parsed it, and the path parameter, decoded.
pub record IsReceiver (parse : Schema → Json → Option Json) (base : String) (ambient : Ambient)
    (req : ExecuteRequest) (received : HttpRequest → Incoming) : Type 0 where
  pub header_law : (h : HttpRequest) → (received h).authorization ≡ authorization_of h.headers
  pub post_law :
      (headers : List (String × String))
      → parse execute_request_schema (request_json req) ≡ some (request_json (with_defaults req))
      → (received (post base headers (request_json req))).route
        ≡ Route.v1 (Endpoint.execute (valid (with_defaults req)))
  pub ambient_law :
      (headers : List (String × String))
      → (received (post base headers (request_json req))).ambient ≡ ambient
  pub pull_law :
      (headers : List (String × String))
      → (received (pull base headers ambient.job_id)).route
        ≡ Route.v1 (Endpoint.job_status ambient.job_id)

-- `JSON.parse` reads what `JSON.stringify` wrote of the value, which is not empty
pub record IsText (stringify : Json → String) (json_parse : String → Option Json) (v : Json)
    : Type 0 where
  pub parse_law : json_parse (stringify v) ≡ some v
  pub text_law : stringify v ≢ ""

abbrev pub sent : (Json → String) → Reply → HttpResponse
sent stringify (Reply.json r) = record { status = r.status; text = stringify r.body }
sent stringify (Reply.text status body) = record { status = status; text = body }

module _ (r : Redis) (config : Config) (sha256 : String → String) (presign : String → ℕ → String)
    (idle upload : ℕ) (authorize_channel : Json → String → Result String Json)
    (not_found : Response) (received : HttpRequest → Incoming) (stringify : Json → String) where
  open r use {Db}

  -- `fetch`, where it reaches the gateway
  unfoldable pub over_http : HttpRequest → AppState Db → Result String HttpResponse × AppState Db
  over_http req s =
      let (reply, s') =
        app r config sha256 presign idle upload authorize_channel not_found (received req) s in
      (ok (sent stringify reply), s')
