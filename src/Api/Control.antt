-- ===== src/Api/Control.antt =====
-- apps/api/src/routes/control.ts without the stdin route: /start, /stdin/close and /kill; and
-- apps/api/src/routes/metrics.ts.
use Prim.Native.String.{◌++◌}
use code_runner.Prelude.{
  ℕ, String, true, [], ◌∷◌, Option, none, some, ◌≡◌, ◌≢◌, refl, arith, eq_iff, eq_refl, show,
}
use mathlib.Core.List
use code_runner.Prelude.Int.{pos, int}
use code_runner.Prelude.Json.{Json, bool, str, obj, end, field}
use code_runner.Prelude.State.{State, ◌>>◌, pure}
use code_runner.Keyspace
use code_runner.Keyspace.{Keyspace, Stored, counter}
use code_runner.Redis.{Redis}
use code_runner.Contract.{ControlType, start, kill, stdin_close, start_flag, control_channel}
use code_runner.Api.Http.{Response, Gateway, command}

abbrev pub start_flag_ttl_seconds : ℕ
start_flag_ttl_seconds = 3600

abbrev pub control_name : ControlType → String
control_name start = "start"
control_name kill = "kill"
control_name stdin_close = "stdin_close"

abbrev pub control_json : ControlType → Json
control_json t = obj (field "type" (str (control_name t)) end)

abbrev pub ok_response : ℕ → Response
ok_response status = record { status = status; body = obj (field "ok" (bool true) end) }

module _ (r : Redis) (job_id : String) where
  open r use {Db, view, set_ex, publish}

  -- the flag first, the message second; "1" is an integer to Redis
  unfoldable pub post_start : State (Gateway Db) Response
  post_start = do
    command (set_ex (start_flag job_id) (counter (pos 1)) (int (pos start_flag_ttl_seconds)))
    command (publish (control_channel job_id) (control_json start))
    pure (ok_response 202)

  unfoldable pub post_stdin_close : State (Gateway Db) Response
  post_stdin_close = do
    command (publish (control_channel job_id) (control_json stdin_close))
    pure (ok_response 200)

  unfoldable pub post_kill : State (Gateway Db) Response
  post_kill = do
    command (publish (control_channel job_id) (control_json kill))
    pure (ok_response 200)

  -- One message on the job's control channel, and no key changed.
  abbrev pub OnlyPublishes : ControlType → Gateway Db → Response × Gateway Db → Type 0
  OnlyPublishes t g out =
      (out.0.status ≡ 200)
      × (view out.1.db ≡ Keyspace.publish (control_channel job_id) (control_json t) (view g.db))

  -- The flag, the message on top of it, and no other string.
  abbrev pub Started : Gateway Db → Response × Gateway Db → Type 0
  Started g out =
      (out.0.status ≡ 202)
      × ((view out.1.db).strings (start_flag job_id) ≡ some (counter (pos 1)))
      × ((view out.1.db).ttls (start_flag job_id) ≡ some 3600000)
      × ((view out.1.db).published
          ≡ List.◌++◌ (view g.db).published ((control_channel job_id, control_json start) ∷ []))
      × ((k : String) → k ≢ start_flag job_id → (view out.1.db).strings k ≡ (view g.db).strings k)

  -- A start is recorded durably and announced: the flag is stored for an hour, the message comes on
  -- top of it, no other string changes, and the answer is 202. A close and a kill publish their
  -- message, change no key, and answer 200.
  pub control_effects :
      (g : Gateway Db)
      → Started g (post_start g)
        × OnlyPublishes stdin_close g (post_stdin_close g)
        × OnlyPublishes kill g (post_kill g)
  unfolding post_start post_stdin_close post_kill
  control_effects g = (
    (
      refl,
      rw (r.view-publish, r.view-set_ex) (ground (arith, eq_refl (start_flag job_id))),
      rw (r.view-publish, r.view-set_ex) (ground (arith, eq_refl (start_flag job_id))),
      rw (r.view-publish, r.view-set_ex) refl,
      (λ k apart.
          rw (r.view-publish, r.view-set_ex) (ground (arith, eq_iff (start_flag job_id) k))),
    ),
    (refl, r.view-publish _ _ _),
    (refl, r.view-publish _ _ _),
  )

-- GET /metrics, on the reply to LLEN: `none` stands for a Redis error
unfoldable pub metrics : Option ℕ → ℕ × String
metrics none = (503, "# code_runner: redis unavailable\n")
metrics (some depth) = (
  200,
  "# HELP code_runner_queue_depth Jobs waiting in jobs:queue (LLEN).\n"
      ++ ("# TYPE code_runner_queue_depth gauge\n"
          ++ ("code_runner_queue_depth " ++ (show depth ++ "\n"))),
)
