-- ===== src/Api/App/Startup.antt =====
-- The manifests are those of the start, whatever is served after it.
use code_runner.Prelude.{ℕ, String, Option, some, List, [], ◌∷◌, ◌≡◌, refl, ap, ◌∙◌, arith}
use code_runner.Prelude.Json.{Json}
use code_runner.Prelude.Result.{Result, ok}
use code_runner.Prelude.State.{State}
use code_runner.Redis.{Redis}
use code_runner.Contract.{Manifest}
use code_runner.Contract.Manifests.{Environment}
use code_runner.Api.Http.{Response, Gateway, invalid, valid}
use code_runner.Api.Config.{Config}
use code_runner.Api.Routes.{Endpoint, Route, Incoming}
use code_runner.Api.Execute.{Ambient}
use code_runner.Api.Jobs.{languages}
use code_runner.Api.Auth.{bearer_auth}
use code_runner.Api.App.{
  AppState, cached, get_manifests, main, on_gateway, endpoint, dispatch, app, serve,
}

main-manifests {ℓ} :
    {D : Type ℓ} (files : Environment) (dir : String) (g : Gateway D) (ms : List Manifest)
    → (main files dir g).0 ≡ ok ms
    → (main files dir g).1.manifests ≡ some ms
unfolding main
main-manifests files dir g ms h = ap cached h

get_manifests_cached {ℓ} :
    {D : Type ℓ} (files : Environment) (dir : String) (s : AppState D) (ms : List Manifest)
    → s.manifests ≡ some ms
    → get_manifests files dir s ≡ (ok ms, s)
unfolding get_manifests
get_manifests_cached files dir s ms h = ground arith

module _ (r : Redis) (config : Config) (sha256 : String → String) (presign : String → ℕ → String)
    (idle upload : ℕ) (authorize_channel : Json → String → Result String Json)
    (not_found : Response) where
  open r use {Db}

  bearer_auth-manifests :
      (expected : String) (header : Option String) (next : State (AppState Db) Response)
      (s : AppState Db)
      → (next s).1.manifests ≡ s.manifests
      → (bearer_auth sha256 expected header next s).1.manifests ≡ s.manifests
  unfolding bearer_auth
  bearer_auth-manifests expected header next s h = ground arith

  on_gateway-manifests :
      (h : State (Gateway Db) Response) (s : AppState Db)
      → (on_gateway h s).1.manifests ≡ s.manifests
  on_gateway-manifests h s = refl

  endpoint-manifests :
      (files : Environment) (ambient : Ambient) (e : Endpoint) (s : AppState Db)
      (ms : List Manifest)
      → s.manifests ≡ some ms
      → (endpoint r config sha256 presign idle upload authorize_channel not_found files ambient e
          s).1.manifests
        ≡ s.manifests
  unfolding endpoint
  endpoint-manifests files ambient Endpoint.languages s ms h =
      ap (λ o. o.1.manifests) (get_manifests_cached files config.languages_dir s ms h)
  endpoint-manifests files ambient (Endpoint.execute (invalid issues)) s ms h = refl
  endpoint-manifests files ambient (Endpoint.execute (valid req)) s ms h =
      ap (λ o. o.1.manifests) (get_manifests_cached files config.languages_dir s ms h)
  endpoint-manifests files ambient (Endpoint.channel_auth body) s ms h = ground arith
  endpoint-manifests files ambient Endpoint.unmatched s ms h = refl
  endpoint-manifests files ambient (Endpoint.job id) s ms h = refl
  endpoint-manifests files ambient (Endpoint.job_status id) s ms h = refl
  endpoint-manifests files ambient (Endpoint.job_output id) s ms h = refl
  endpoint-manifests files ambient (Endpoint.start id) s ms h = refl
  endpoint-manifests files ambient (Endpoint.stdin_close id) s ms h = refl
  endpoint-manifests files ambient (Endpoint.kill id) s ms h = refl
  endpoint-manifests files ambient (Endpoint.stdin id chunk) s ms h = refl
  endpoint-manifests files ambient (Endpoint.blobs_check hashes) s ms h = refl
  endpoint-manifests files ambient (Endpoint.blobs_finalize hashes) s ms h = refl

  dispatch-manifests :
      (req : Incoming) (route : Route) (s : AppState Db) (ms : List Manifest)
      → s.manifests ≡ some ms
      → (dispatch r config sha256 presign idle upload authorize_channel not_found req route
          s).1.manifests
        ≡ s.manifests
  unfolding dispatch
  dispatch-manifests req Route.health s ms h = refl
  dispatch-manifests req Route.metrics s ms h = refl
  dispatch-manifests req Route.unmatched s ms h = refl
  dispatch-manifests req (Route.v1 e) s ms h =
      bearer_auth-manifests config.executor_api_token req.authorization _ s
        (endpoint-manifests req.files req.ambient e s ms h)

  serve-manifests :
      (reqs : List Incoming) (s : AppState Db) (ms : List Manifest)
      → s.manifests ≡ some ms
      → (serve r config sha256 presign idle upload authorize_channel not_found reqs s).1.manifests
        ≡ some ms
  unfolding serve app
  serve-manifests [] s ms h = h
  serve-manifests (req ∷ reqs) s ms h =
      serve-manifests reqs _ ms (dispatch-manifests req req.route s ms h ∙ h)

  -- Once the process has started, every request for the languages that gets past the token lists the
  -- manifests of the start, whatever was served before it, and whatever has become of their files.
  pub main-languages :
      (files : Environment) (g : Gateway Db) (ms : List Manifest) (reqs : List Incoming)
      (now : Environment) (ambient : Ambient)
      → (main files config.languages_dir g).0 ≡ ok ms
      → let s =
          (serve r config sha256 presign idle upload authorize_channel not_found reqs
            (main files config.languages_dir g).1).1 in
        endpoint r config sha256 presign idle upload authorize_channel not_found now ambient
          Endpoint.languages s
        ≡ (languages (ok ms), s)
  unfolding endpoint
  main-languages files g ms reqs now ambient h =
      let kept =
        serve-manifests reqs (main files config.languages_dir g).1 ms
          (main-manifests files config.languages_dir g ms h) in
      ap (λ o. (languages o.0, o.1)) (get_manifests_cached now config.languages_dir _ ms kept)
