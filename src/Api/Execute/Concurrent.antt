-- ===== src/Api/Execute/Concurrent.antt =====
-- apps/api/src/routes/execute.ts with several requests in flight: the handler gives way to others
-- at each `await` of Redis, so the length of the queue is read in one step, and the job is pushed in
-- a later one. The pipeline is one step, since only its last command changes the queue.
pub mod Depth
pub mod Overshoot
pub mod Alone
use code_runner.Prelude.{ℕ, Bool, true, false, List, ◌≤◌, if◌then◌else◌}
use code_runner.Prelude.State.{State, ◌>>=◌, ◌>>◌, pure}
use code_runner.Prelude.Slots.{System}
use code_runner.Keyspace
use code_runner.Redis.{Redis}
use code_runner.Contract.{Manifest, ExecuteRequest, job_queue}
use code_runner.Api.Http.{Gateway}
use code_runner.Api.Config.{Config}
use code_runner.Api.Admission.{at_capacity}
use code_runner.Api.Execute.{Ambient, enqueue, reject}

-- An admissible request, as it comes to the capacity check.
pub record Job : Type 0 where
  pub ambient : Ambient
  pub manifest : Manifest
  pub body : ExecuteRequest

-- Where the handler stands: in front of `atCapacity`, of the pipeline, or of the read for the
-- message of the 429 answer.
pub data Phase : Type 0 where
  free : Phase
  arrived admitted refused : Job → Phase

module _ (r : Redis) (config : Config) (manifests : List Manifest) where
  open r use {Db, view}

  abbrev pub queue_length : Gateway Db → ℕ
  queue_length g = Keyspace.llen job_queue (view g.db)

  -- one round trip to Redis
  unfoldable pub advance : Phase → State (Gateway Db) Phase
  advance Phase.free = pure Phase.free
  advance (Phase.arrived q) = do
    full ← at_capacity r config.max_queue_depth
    pure (if full then Phase.refused q else Phase.admitted q)
  advance (Phase.admitted q) = do
    enqueue r config manifests q.ambient q.manifest q.body
    pure Phase.free
  advance (Phase.refused q) = do reject r config manifests q.ambient; pure Phase.free

  pub data Move (g : Gateway Db) : Phase → Gateway Db → Phase → Type 0 where
    arrive : (q : Job) → Move g Phase.free g (Phase.arrived q)
    go : (p : Phase) → Move g p (advance p g).1 (advance p g).0

  -- A worker takes jobs off the queue, and nobody else pushes: the queue does not grow.
  abbrev pub Drains : Gateway Db → Gateway Db → Type 0
  Drains g h = queue_length h ≤ queue_length g

  abbrev pub Requests : Type 0
  Requests = System (Gateway Db) Phase
