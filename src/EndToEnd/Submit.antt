-- ===== src/EndToEnd/Submit.antt =====
-- A submission through the client, and the pull of its status after it.
use Prim.Native.String.{◌++◌}
use code_runner.Prelude.{
  ℕ, suc, String, false, Option, some, List, ◌≡◌, ◌≢◌, refl, ap, ◌∙◌, eq_iff, eqb, arith,
}
use code_runner.Prelude.Int.{pos, int, ge_number}
use code_runner.Prelude.Json.{Json}
use code_runner.Prelude.Result.{Result, ok}
use code_runner.Keyspace
use code_runner.Redis.{Redis}
use code_runner.Contract.{Manifest, ExecuteRequest, status_json, job_queue}
use code_runner.Api.Http.{Response, Validated, valid, Gateway}
use code_runner.Api.Config.{Config}
use code_runner.Api.Routes.{Incoming, Reply}
use code_runner.Api.Jobs.{response, respond_status}
use code_runner.Api.Execute.{Ambient, execute, accepted, initial_status}
use code_runner.Api.Execute.Effects.{IsAdmissible, execute-accepted_iff}
use code_runner.Api.Execute.Queue.{respond_status-execute}
use code_runner.Api.Execute.Typed.{answer_of_admissible}
use code_runner.Api.App.{AppState}
use code_runner.Schemas.{execute_request_schema}
use code_runner.Schemas.Zod.{Schema}
use code_runner.Schemas.Requests.{request_json, with_defaults}
use code_runner.Sdk.Uri.{encode_uri_component}
use code_runner.Sdk.Client
use code_runner.Sdk.Client.{HttpRequest, HttpResponse, Thrown, answer_of}
use code_runner.Sdk.Client.Answers.{http_of, outcome, request-answered}
use code_runner.EndToEnd.{post, pull, IsReceiver, IsText, sent, over_http}
use code_runner.EndToEnd.Gateway.{running, app-right, endpoint-submit, endpoint-pull}

manifest_unique :
    (r : Redis) (config : Config) (ms : List Manifest) (ambient : Ambient)
    (body : Validated ExecuteRequest) (a b : IsAdmissible r config ms ambient body)
    → a.manifest ≡ b.manifest
manifest_unique r config ms ambient body a b = ground (arith, a.parsed, b.parsed, a.found, b.found)

module _ (r : Redis) (config : Config) (sha256 : String → String) (presign : String → ℕ → String)
    (idle upload : ℕ) (authorize_channel : Json → String → Result String Json)
    (not_found : Response) where
  open r use {Db}

  module _ (received : HttpRequest → Incoming) (stringify : Json → String)
      (json_parse : String → Option Json) (sha256_hex : List ℕ → String)
      (injected : List (String × String)) (base : String) (threshold : ℕ)
      (parse : Schema → Json → Option Json) (ambient : Ambient) (req : ExecuteRequest)
      (receiver : IsReceiver parse base ambient req received)
      (given : config.executor_api_token ≢ "") where
    abbrev fetch : HttpRequest → AppState Db → Result String HttpResponse × AppState Db
    fetch =
        over_http r config sha256 presign idle upload authorize_channel not_found received stringify

    abbrev submit : Json → AppState Db → Result Thrown (Option Json) × AppState Db
    submit body =
        Client.execute (AppState Db) fetch json_parse sha256_hex injected base
          config.executor_api_token threshold body

    abbrev ask : String → AppState Db → Result Thrown (Option Json) × AppState Db
    ask id =
        Client.get_status (AppState Db) fetch json_parse sha256_hex injected base
          config.executor_api_token threshold id

    abbrev headers : String → Client.Body → List (String × String)
    headers path body =
        Client.headers_for (AppState Db) fetch json_parse sha256_hex injected base
          config.executor_api_token threshold path body

    abbrev carried : Reply × AppState Db → Result String HttpResponse × AppState Db
    carried (reply, s) = (ok (sent stringify reply), s)

    abbrev replied : Response × AppState Db → Reply × AppState Db
    replied (resp, s) = (Reply.json resp, s)

    fetch-submit :
        (ms : List Manifest) (g : Gateway Db)
        → parse execute_request_schema (request_json req) ≡ some (request_json (with_defaults req))
        → let out = execute r config ms ambient (valid (with_defaults req)) g in
          fetch
            (http_of
              (AppState Db)
              fetch
              json_parse
              sha256_hex
              injected
              base
              config.executor_api_token
              threshold
              "POST"
              "/v1/execute"
              (Client.json (request_json req)))
            (running ms g)
          ≡ (ok (sent stringify (Reply.json out.0)), running ms out.1)
    unfolding over_http Client.headers_for
    fetch-submit ms g fits =
        let headers = headers "/v1/execute" (Client.json (request_json req)) in
        let h = post base headers (request_json req) in
        ap carried (
          app-right r config sha256 presign idle upload authorize_channel not_found (received h) _
            (running ms g) (receiver.post_law headers fits) (receiver.header_law h) given
          ∙ ap replied (
              endpoint-submit r config sha256 presign idle upload authorize_channel not_found
                (received h) (with_defaults req) ms g)
          ∙ ap
              (λ a.
                let out = execute r config ms a (valid (with_defaults req)) g in
                (Reply.json out.0, running ms out.1))
              (receiver.ambient_law headers))

    fetch-ask :
        (ms : List Manifest) (g : Gateway Db)
        → let id = ambient.job_id in
          fetch
            (http_of
              (AppState Db)
              fetch
              json_parse
              sha256_hex
              injected
              base
              config.executor_api_token
              threshold
              "GET"
              ("/v1/jobs/" ++ (encode_uri_component id ++ "/status"))
              Client.empty)
            (running ms g)
          ≡ (ok (sent stringify (Reply.json (respond_status r id g).0)), running ms g)
    unfolding over_http Client.headers_for
    fetch-ask ms g =
        let id = ambient.job_id in
        let headers =
          headers ("/v1/jobs/" ++ (encode_uri_component id ++ "/status")) Client.empty in
        let h = pull base headers id in
        ap carried (
          app-right r config sha256 presign idle upload authorize_channel not_found (received h) _
            (running ms g) (receiver.pull_law headers) (receiver.header_law h) given
          ∙ ap replied (
              endpoint-pull r config sha256 presign idle upload authorize_channel not_found
                (received h) id ms g))

    -- the value that the client reads of a 2xx answer other than 204
    read_back :
        (status : ℕ) (v : Json)
        → IsText stringify json_parse v
        → eqb status 204 ≡ false
        → answer_of
            (AppState Db)
            fetch
            json_parse
            sha256_hex
            injected
            base
            config.executor_api_token
            threshold
            (record { status = status; text = stringify v })
          ≡ some v
    unfolding answer_of
    read_back status v text other =
        ground (arith, other, text.text_law, eq_iff (stringify v) "", text.parse_law)

    abbrev read : String → Response → Result Thrown (Option Json)
    read path resp =
        outcome (AppState Db) fetch json_parse sha256_hex injected base config.executor_api_token
          threshold path (sent stringify (Reply.json resp))

    -- The client of the SDK on the gateway, with the token that is configured and not empty, the
    -- manifests loaded, a positive JOB_TTL and a job id that is not empty: a request that passes
    -- ExecuteRequestSchema, is admissible and finds the queue below its maximum is answered with the
    -- job, and the client's next call, a pull of that job's status, gives its queued status. The two
    -- requests reach their handlers as Hono and zod document, and JSON.parse reads what JSON.stringify
    -- wrote of the two answers.
    pub submit-ask :
        (ms : List Manifest) (g : Gateway Db) (seconds : ℕ)
        (a : IsAdmissible r config ms ambient (valid (with_defaults req)))
        → parse execute_request_schema (request_json req) ≡ some (request_json (with_defaults req))
        → config.job_ttl_seconds ≡ int (pos (suc seconds))
        → ambient.job_id ≢ ""
        → ge_number (Keyspace.llen job_queue (r.view g.db)) config.max_queue_depth ≡ false
        → IsText stringify json_parse (accepted ambient).body
        → IsText stringify json_parse (status_json (initial_status ambient a.manifest))
        → let (answer, s) = submit (request_json req) (running ms g) in
          (answer ≡ ok (some (accepted ambient).body))
          × ((ask ambient.job_id s).0 ≡ ok (some (status_json (initial_status ambient a.manifest))))
    unfolding Client.execute Client.get_status accepted
    submit-ask ms g seconds a fits ttl named room text text' =
        let body = valid (with_defaults req) in
        let taken = (execute-accepted_iff r config ms ambient body g).1 (a, room) in
        let replied = answer_of_admissible r config ms ambient body g a taken in
        let after = (execute r config ms ambient body g).1 in
        let (b, pulled) =
          respond_status-execute r config ms ambient body g seconds ttl named taken in
        let same : b.manifest ≡ a.manifest = manifest_unique r config ms ambient body b a in
        let first : submit (request_json req) (running ms g)
            ≡ (ok (some (accepted ambient).body), running ms after) =
          request-answered (AppState Db) fetch json_parse sha256_hex injected base
            config.executor_api_token threshold "POST" "/v1/execute" _ (running ms g) _ _
            (fetch-submit ms g fits)
          ∙ ap (λ resp. (read "/v1/execute" resp, running ms after)) replied
          ∙ ap (λ v. (ok v, running ms after)) (read_back 202 (accepted ambient).body text refl) in
        let second : (ask ambient.job_id (running ms after)).0
            ≡ ok (some (status_json (initial_status ambient a.manifest))) =
          ap (λ o. o.0)
            (request-answered (AppState Db) fetch json_parse sha256_hex injected base
              config.executor_api_token threshold "GET" _ Client.empty (running ms after) _ _
              (fetch-ask ms after))
          ∙ ap (read ("/v1/jobs/" ++ (encode_uri_component ambient.job_id ++ "/status")))
              (pulled ∙ ap (λ m. response 200 (status_json (initial_status ambient m))) same)
          ∙ ap ok (read_back 200 (status_json (initial_status ambient a.manifest)) text' refl) in
        (ap (λ o. o.0) first, ap (λ o. (ask ambient.job_id o.1).0) first ∙ second)
