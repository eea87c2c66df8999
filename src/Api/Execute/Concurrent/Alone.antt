-- ===== src/Api/Execute/Concurrent/Alone.antt =====
-- One request alone, a round trip at a time, against the handler run as a whole.
use code_runner.Prelude.{List, ◌≡◌, arith}
use code_runner.Redis.{Redis}
use code_runner.Contract.{Manifest, ExecuteRequest}
use code_runner.Api.Http.{Validated, Gateway}
use code_runner.Api.Config.{Config}
use code_runner.Api.Execute.{Ambient, execute, admit}
use code_runner.Api.Execute.Effects.{IsAdmissible, execute-admit}
use code_runner.Api.Execute.Concurrent.{Job, Phase, advance}

module _ (r : Redis) (config : Config) (manifests : List Manifest) where
  open r use {Db, view}

  -- With nothing in between, the two round trips of an admissible request leave what the handler
  -- leaves when it is run as a whole.
  pub advance-execute :
      (ambient : Ambient) (req : Validated ExecuteRequest) (g : Gateway Db)
      (a : IsAdmissible r config manifests ambient req)
      → let q : Job = record { ambient = ambient; manifest = a.manifest; body = a.body } in
        let (p, h) = advance r config manifests (Phase.arrived q) g in
        (advance r config manifests p h).1 ≡ (execute r config manifests ambient req g).1
  unfolding advance admit
  advance-execute ambient req g a =
      rw (execute-admit r config manifests ambient req g a) (ground arith)
