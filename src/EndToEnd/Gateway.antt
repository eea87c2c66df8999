-- ===== src/EndToEnd/Gateway.antt =====
-- A request with the right token, and the handlers of a submission and of a status pull.
use Prim.Native.String.{◌++◌}
use code_runner.Prelude.{
  ℕ, String, some, List, ◌≡◌, ◌≢◌, refl, ◌==◌, eq_iff, eq_refl, Bool-cases, inl, inr, arith,
}
use code_runner.Prelude.Dropping.{drop_prefix-append}
use code_runner.Prelude.Json.{Json}
use code_runner.Prelude.Result.{Result}
use code_runner.Prelude.State.{State}
use code_runner.Redis.{Redis}
use code_runner.Contract.{Manifest, ExecuteRequest}
use code_runner.Api.Http.{Response, valid, Gateway}
use code_runner.Api.Config.{Config}
use code_runner.Api.Auth.{bearer_auth}
use code_runner.Api.Routes.{Endpoint, Route, Incoming, Reply}
use code_runner.Api.Jobs.{respond_status}
use code_runner.Api.Execute.{execute}
use code_runner.Api.App.{AppState, app, endpoint, get_manifests}

-- the process with its manifests loaded
abbrev pub running : {D : Type 0} → List Manifest → Gateway D → AppState D
running ms g = record { manifests = some ms; gateway = g }

-- the header of the right token lets a request through
bearer_auth-right :
    {S : Type 0} (sha256 : String → String) (token : String) (next : State S Response)
    → token ≢ ""
    → bearer_auth sha256 token (some ("Bearer " ++ token)) next ≡ next
unfolding bearer_auth
bearer_auth-right sha256 token next given =
    rw (drop_prefix-append "Bearer " token)
      (ground (arith, eq_iff token "", eq_refl (sha256 token)))

module _ (r : Redis) (config : Config) (sha256 : String → String) (presign : String → ℕ → String)
    (idle upload : ℕ) (authorize_channel : Json → String → Result String Json)
    (not_found : Response) where
  open r use {Db}

  abbrev pub gateway : Incoming → AppState Db → Reply × AppState Db
  gateway = app r config sha256 presign idle upload authorize_channel not_found

  -- a request below /v1 with the right token is its handler
  pub app-right :
      (req : Incoming) (e : Endpoint) (s : AppState Db)
      → req.route ≡ Route.v1 e
      → req.authorization ≡ some ("Bearer " ++ config.executor_api_token)
      → config.executor_api_token ≢ ""
      → let out =
          endpoint r config sha256 presign idle upload authorize_channel not_found req.files
            req.ambient e s in
        gateway req s ≡ (Reply.json out.0, out.1)
  unfolding app
  app-right req e s to with_token given =
      rw
        (
          to,
          app,
          with_token,
          bearer_auth-right sha256 config.executor_api_token
              (endpoint r config sha256 presign idle upload authorize_channel not_found req.files
                req.ambient e)
              given,
        )
        refl

  pub endpoint-submit :
      (req : Incoming) (body : ExecuteRequest) (ms : List Manifest) (g : Gateway Db)
      → let out = execute r config ms req.ambient (valid body) g in
        endpoint r config sha256 presign idle upload authorize_channel not_found req.files
          req.ambient
          (Endpoint.execute (valid body))
          (running ms g)
        ≡ (out.0, running ms out.1)
  unfolding endpoint get_manifests
  endpoint-submit req body ms g = refl

  pub endpoint-pull :
      (req : Incoming) (id : String) (ms : List Manifest) (g : Gateway Db)
      → endpoint r config sha256 presign idle upload authorize_channel not_found req.files
          req.ambient
          (Endpoint.job_status id)
          (running ms g)
        ≡ ((respond_status r id g).0, running ms g)
  unfolding endpoint respond_status
  endpoint-pull req id ms g = elim (Bool-cases (id == "")) [
    | inl none_named ↦ rw none_named refl
    | inr named ↦ rw named refl
  ]
