-- ===== src/Tests/EndToEnd.antt =====
-- A job submitted through the client of the SDK to the gateway, and the pull of its status.
use code_runner.Prelude.{
  ℕ, String, none, some, Option, List, [], ◌∷◌, ◌≡◌, refl, ◌==◌, if◌then◌else◌,
}
use code_runner.Prelude.Json.{Json, obj, field, end, error_body}
use code_runner.Prelude.Result.{Result, ok, err}
use code_runner.Redis.Memory.{memory}
use code_runner.Contract.{status_json}
use code_runner.Contract.Manifests.{Environment}
use code_runner.Api.Http.{Response, valid}
use code_runner.Api.Execute.{accepted, initial_status}
use code_runner.Api.Routes.{Endpoint, Route, Incoming}
use code_runner.Api.App.{AppState}
use code_runner.Keyspace.{Keyspace}
use code_runner.Schemas.Requests.{request_json, with_defaults}
use code_runner.Sdk.Client.{HttpRequest, execute, get_status}
use code_runner.EndToEnd.{authorization_of, IsReceiver, IsText, over_http}
use code_runner.EndToEnd.Submit.{submit-ask}
use code_runner.Tests.Fixtures.{python, config, ambient, idle}
use code_runner.Tests.Typed.{safe_parse, request, sent, admissible}

abbrev no_files : Environment
no_files = record {
  readdir = λ dir. err "no directory";
  manifest_path = λ dir entry. entry;
  read_file = λ path. none;
  json_parse = λ text. err "no JSON";
  safe_parse = λ v. err "no manifest";
}

-- a POST is the submission, any other request the pull of its status
abbrev route_of : HttpRequest → Route
route_of h =
    if h.method == "POST"
    then Route.v1 (Endpoint.execute (valid (with_defaults request)))
    else Route.v1 (Endpoint.job_status "job-1")

abbrev received : HttpRequest → Incoming
received h = record {
  route = route_of h;
  authorization = authorization_of h.headers;
  ambient = ambient;
  files = no_files;
}

receiver : IsReceiver safe_parse "http://gateway" ambient request received
receiver = record {
  header_law = λ h. refl;
  post_law = λ headers fits. refl;
  ambient_law = λ headers. refl;
  pull_law = λ headers. refl;
}

-- the two answers, by their number of fields
abbrev stringify : Json → String
stringify (obj (field a x (field b y (field c z end)))) = "job"
stringify _ = "status"

abbrev json_parse : String → Option Json
json_parse text =
    if text == "job"
    then some (accepted ambient).body
    else some (status_json (initial_status ambient python))

abbrev sha256 : String → String
sha256 s = s

abbrev presign : String → ℕ → String
presign hash ttl = "https://store/put"

abbrev refuse_channel : Json → String → Result String Json
refuse_channel socket channel = err "off"

abbrev not_found : Response
not_found = record { status = 404; body = error_body "not found" }

abbrev digest : List ℕ → String
digest bytes = "00"

abbrev process : AppState Keyspace
process = record { manifests = some (python ∷ []); gateway = idle }

job-IsText : IsText stringify json_parse (accepted ambient).body
unfolding accepted
job-IsText = record { parse_law = refl; text_law = λ e. cc (e) }

status-IsText : IsText stringify json_parse (status_json (initial_status ambient python))
unfolding status_json
status-IsText = record { parse_law = refl; text_law = λ e. cc (e) }

submit-ask_example :
    let fetch =
      over_http memory config sha256 presign 60 30 refuse_channel not_found received stringify in
    let (answer, s) =
      execute
        (AppState Keyspace)
        fetch
        json_parse
        digest
        []
        "http://gateway"
        "secret"
        1000
        (request_json request)
        process in
    (answer ≡ ok (some (accepted ambient).body))
    × ((get_status
          (AppState Keyspace)
          fetch
          json_parse
          digest
          []
          "http://gateway"
          "secret"
          1000
          "job-1"
          s).0
        ≡ ok (some (status_json (initial_status ambient python))))
submit-ask_example =
    submit-ask memory config sha256 presign 60 30 refuse_channel not_found received stringify
      json_parse digest [] "http://gateway" 1000 safe_parse ambient request receiver (λ e. cc (e))
      (python ∷ []) idle 3599 admissible sent refl (λ e. cc (e)) refl job-IsText status-IsText
