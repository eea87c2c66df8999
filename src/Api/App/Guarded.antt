-- ===== src/Api/App/Guarded.antt =====
-- No request gets past the bearer token.
use Prim.Native.String.{◌++◌}
use code_runner.Prelude.{ℕ, String, Option, some, List, [], ◌∷◌, ◌≡◌, ◌≢◌, refl, sym, inl, inr, All}
use mathlib.Core.Path.{subst}
use code_runner.Prelude.Json.{Json}
use code_runner.Prelude.Result.{Result}
use code_runner.Prelude.State.{State, pure}
use code_runner.Redis.{Redis}
use code_runner.Api.Http.{Response}
use code_runner.Api.Config.{Config}
use code_runner.Api.Routes.{Route, Incoming, Reply}
use code_runner.Api.Auth.{unauthorized, bearer_auth, bearer_auth_exact}
use code_runner.Api.App.{AppState, endpoint, dispatch, app, serve}

module _ (r : Redis) (config : Config) (sha256 : String → String) (presign : String → ℕ → String)
    (idle upload : ℕ) (authorize_channel : Json → String → Result String Json)
    (not_found : Response) where
  open r use {Db}

  -- A request that does not carry the token.
  abbrev pub LacksToken : Incoming → Type 0
  LacksToken req = req.authorization ≢ some ("Bearer " ++ config.executor_api_token)

  -- Nothing but the digest of the token is the digest of the token.
  abbrev pub IsCollisionFree : Type 0
  IsCollisionFree =
      (s : String) → sha256 s ≡ sha256 config.executor_api_token → s ≡ config.executor_api_token

  -- Below /v1 only the 401 answer.
  abbrev pub IsRefusal : Route → Reply → Type 0
  IsRefusal (Route.v1 e) reply = reply ≡ Reply.json unauthorized
  IsRefusal Route.health reply = Unit
  IsRefusal Route.metrics reply = Unit
  IsRefusal Route.unmatched reply = Unit

  abbrev pub AreRefusals : List Incoming → List Reply → Type 0
  AreRefusals [] replies = Unit
  AreRefusals (req ∷ reqs) [] = ⊥
  AreRefusals (req ∷ reqs) (reply ∷ replies) = IsRefusal req.route reply × AreRefusals reqs replies

  bearer_auth_refused :
      (header : Option String) (next : State (AppState Db) Response)
      → config.executor_api_token ≢ ""
      → IsCollisionFree
      → header ≢ some ("Bearer " ++ config.executor_api_token)
      → bearer_auth sha256 config.executor_api_token header next ≡ pure unauthorized
  bearer_auth_refused header next given free lacks =
      elim (bearer_auth_exact sha256 config.executor_api_token header next given free) [
        | inl (same, _) ↦ absurd (lacks same)
        | inr (_, refused) ↦ refused
      ]

  dispatch-IsRefusal :
      (req : Incoming) (route : Route) (s : AppState Db)
      → config.executor_api_token ≢ ""
      → IsCollisionFree
      → LacksToken req
      → IsRefusal route
          (dispatch r config sha256 presign idle upload authorize_channel not_found req route s).0
        × ((dispatch r config sha256 presign idle upload authorize_channel not_found req route s).1
            ≡ s)
  unfolding dispatch
  dispatch-IsRefusal req Route.health s given free lacks = (tt, refl)
  dispatch-IsRefusal req Route.metrics s given free lacks = (tt, refl)
  dispatch-IsRefusal req Route.unmatched s given free lacks = (tt, refl)
  dispatch-IsRefusal req (Route.v1 e) s given free lacks =
      rw
        (bearer_auth_refused req.authorization
          (endpoint r config sha256 presign idle upload authorize_channel not_found req.files
            req.ambient e)
          given free lacks)
        (refl, refl)

  -- With a token that is not empty, and no other text of its digest: where no request in a sequence
  -- carries the header "Bearer <token>", each of them that is for a route below /v1 is answered by
  -- 401, and all of them together leave Redis, the counters and the loaded manifests as they were.
  pub serve-AreRefusals :
      (reqs : List Incoming) (s : AppState Db)
      → config.executor_api_token ≢ ""
      → IsCollisionFree
      → All LacksToken reqs
      → AreRefusals reqs
          (serve r config sha256 presign idle upload authorize_channel not_found reqs s).0
        × ((serve r config sha256 presign idle upload authorize_channel not_found reqs s).1 ≡ s)
  unfolding serve app
  serve-AreRefusals [] s given free lacks = (tt, refl)
  serve-AreRefusals (req ∷ reqs) s given free (lack, lacks) =
      let (first, same) = dispatch-IsRefusal req req.route s given free lack in
      let (rest, still) = serve-AreRefusals reqs s given free lacks in
      let step =
        dispatch r config sha256 presign idle upload authorize_channel not_found req req.route s in
      let go = serve r config sha256 presign idle upload authorize_channel not_found reqs in
      subst (λ t. (IsRefusal req.route step.0 × AreRefusals reqs (go t).0) × ((go t).1 ≡ s))
        (sym same) ((first, rest), still)
