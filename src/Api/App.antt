-- ===== src/Api/App.antt =====
-- apps/api/src/app.ts, with manifests.ts and the start of server.ts: the manifests that are loaded
-- once, and the requests that reach a handler. Hono matches the path, so a request comes here as the
-- route that it is for; what Hono answers where none fits is a parameter. Requests are run one after
-- another. The two lifetimes of blobs are natural numbers, as in Blobs.
pub mod Startup
pub mod Guarded
use code_runner.Prelude.{ℕ, String, Option, none, some, List, [], ◌∷◌, if◌then◌else◌}
use code_runner.Prelude.Json.{Json, str, obj, end, field}
use code_runner.Prelude.Result.{Result, ok, err}
use code_runner.Prelude.State.{State, ◌>>=◌, ◌>>◌, pure, gets}
use code_runner.Redis.{Redis}
use code_runner.Contract.{Manifest, ExecuteRequest, job_queue}
use code_runner.Contract.Manifests.{Environment, load_manifests}
use code_runner.Api.Http.{Response, Validated, invalid, valid, validation_error, Gateway}
use code_runner.Api.Config.{Config}
use code_runner.Api.Routes.{Endpoint, Route, Incoming, Reply}
use code_runner.Api.Execute.{Ambient, execute, unresolved}
use code_runner.Api.Jobs.{respond_status, respond_output, languages}
use code_runner.Api.Auth.{bearer_auth}
use code_runner.Api.Stdin.{post_stdin}
use code_runner.Api.Control.{post_start, post_stdin_close, post_kill, metrics}
use code_runner.Api.Blobs.{blobs_check, blobs_finalize}
use code_runner.Api.ChannelAuth.{channel_auth}

-- The state of the process: `_manifests`, beside Redis and the counters.
pub record AppState {ℓ} (D : Type ℓ) : Type ℓ where
  pub manifests : Option (List Manifest)
  pub gateway : Gateway D

abbrev pub cached : Result String (List Manifest) → Option (List Manifest)
cached (ok ms) = some ms
cached (err message) = none

-- `getManifests`, on the files as they are at the call; what failed to load is not kept
unfoldable pub get_manifests {ℓ} :
    {D : Type ℓ} → Environment → String → State (AppState D) (Result String (List Manifest))
get_manifests files dir s = elim s.manifests [
  | some ms ↦ (ok ms, s)
  | none ↦ let loaded = load_manifests files dir in (loaded, record s { manifests = cached loaded })
]

-- The start of `main`: the process ends (`err`) unless the manifests load.
unfoldable pub main {ℓ} :
    {D : Type ℓ} → Environment → String → Gateway D → Result String (List Manifest) × AppState D
unfolding get_manifests
main files dir g = get_manifests files dir (record { manifests = none; gateway = g })

-- a handler that leaves the manifests alone
abbrev pub on_gateway {ℓ κ} : {D : Type ℓ} {A : Type κ} → State (Gateway D) A → State (AppState D) A
on_gateway h s = let (a, g) = h s.gateway in (a, record s { gateway = g })

abbrev health_response : Response
health_response = record { status = 200; body = obj (field "status" (str "ok") end) }

abbrev text_of : ℕ × String → Reply
text_of (status, body) = Reply.text status body

module _ (r : Redis) (config : Config) (sha256 : String → String) (presign : String → ℕ → String)
    (idle_ttl_seconds upload_url_ttl_seconds : ℕ)
    (authorize_channel : Json → String → Result String Json) (not_found : Response) where
  open r use {Db, llen}

  -- `getManifests` and `resolveManifest` stand in one `try`
  execute_loaded :
      Ambient
      → Result String (List Manifest)
      → Validated ExecuteRequest
      → State (Gateway Db) Response
  execute_loaded ambient (ok ms) req = execute r config ms ambient req
  execute_loaded ambient (err message) (invalid issues) = pure (validation_error issues)
  execute_loaded ambient (err message) (valid req) = pure (unresolved req message)

  -- a body that does not fit is answered in front of the handler
  post_execute : Environment → Ambient → Validated ExecuteRequest → State (AppState Db) Response
  unfolding execute_loaded
  post_execute files ambient (invalid issues) = pure (validation_error issues)
  post_execute files ambient (valid req) = do
    loaded ← get_manifests files config.languages_dir
    on_gateway (execute_loaded ambient loaded (valid req))

  get_languages : Environment → State (AppState Db) Response
  get_languages files = do
    loaded ← get_manifests files config.languages_dir
    pure (languages loaded)

  -- Redis alone, for a handler that does not count
  on_db : {A : Type 0} → State Db A → State (Gateway Db) A
  on_db h g = let (a, d) = h g.db in (a, record g { db = d })

  -- the handler of a route, as `makeApp` registers it
  unfoldable pub endpoint : Environment → Ambient → Endpoint → State (AppState Db) Response
  unfolding post_execute get_languages on_db
  endpoint files ambient Endpoint.languages = get_languages files
  endpoint files ambient Endpoint.unmatched = pure not_found
  endpoint files ambient (Endpoint.execute req) = post_execute files ambient req
  endpoint files ambient (Endpoint.job id) = on_gateway (respond_status r id)
  endpoint files ambient (Endpoint.job_status id) = on_gateway (respond_status r id)
  endpoint files ambient (Endpoint.job_output id) = on_gateway (respond_output r id)
  endpoint files ambient (Endpoint.start id) = on_gateway (post_start r id)
  endpoint files ambient (Endpoint.stdin_close id) = on_gateway (post_stdin_close r id)
  endpoint files ambient (Endpoint.kill id) = on_gateway (post_kill r id)
  endpoint files ambient (Endpoint.stdin id chunk) =
      on_gateway (post_stdin r id ambient.now_ms chunk)
  endpoint files ambient (Endpoint.blobs_check hashes) = on_gateway (
      on_db (
        blobs_check r presign config.blob_store_configured idle_ttl_seconds upload_url_ttl_seconds
          ambient.now_ms hashes))
  endpoint files ambient (Endpoint.blobs_finalize hashes) = on_gateway (
      on_db (
        blobs_finalize r presign config.blob_store_configured idle_ttl_seconds
          upload_url_ttl_seconds ambient.now_ms hashes))
  endpoint files ambient (Endpoint.channel_auth body) =
      if config.enable_channel_auth
      then pure (channel_auth authorize_channel body)
      else pure not_found

  -- `makeApp`: bearerAuth stands in front of every route below /v1, and of no other
  dispatch : Incoming → Route → State (AppState Db) Reply
  dispatch req Route.health = pure (Reply.json health_response)
  dispatch req Route.unmatched = pure (Reply.json not_found)
  dispatch req Route.metrics = do
    depth ← gets (λ s. llen job_queue s.gateway.db)
    pure (text_of (metrics (some depth)))
  dispatch req (Route.v1 e) = do
    response ←
        bearer_auth sha256 config.executor_api_token req.authorization
          (endpoint req.files req.ambient e)
    pure (Reply.json response)

  unfoldable pub app : Incoming → State (AppState Db) Reply
  unfolding dispatch
  app req = dispatch req req.route

  -- the requests in the order in which they are served
  unfoldable pub serve : List Incoming → State (AppState Db) (List Reply)
  unfolding app
  serve [] = pure []
  serve (req ∷ reqs) = do reply ← app req; replies ← serve reqs; pure (reply ∷ replies)
