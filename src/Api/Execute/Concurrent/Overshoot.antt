-- ===== src/Api/Execute/Concurrent/Overshoot.antt =====
-- A schedule that lets every request of a burst through the capacity check.
use code_runner.Prelude.{ℕ, zero, suc, List}
use code_runner.Redis.{Redis}
use code_runner.Contract.{Manifest}
use code_runner.Api.Http.{Gateway}
use code_runner.Api.Config.{Config}
use code_runner.Api.Execute.{enqueue}
use code_runner.Api.Execute.Concurrent.{Job}

module _ (r : Redis) (config : Config) (manifests : List Manifest) where
  open r use {Db, view}

  -- the gateway after the first `n` of the jobs have been pushed
  pushed : (ℕ → Job) → Gateway Db → ℕ → Gateway Db
  pushed jobs g zero = g
  pushed jobs g (suc n) =
      let q = jobs n in (enqueue r config manifests q.ambient q.manifest q.body (pushed jobs g n)).1
