-- ===== src/Api/Admission.antt =====
-- apps/api/src/admission.ts: the queue-depth gate of POST /v1/execute.
use Prim.Native.String.{◌++◌}
use code_runner.Prelude.{ℕ, suc, ◌+◌, String, Bool, show}
use code_runner.Prelude.Int.{pos, negsuc, Number, nan, int, ge_number}
use code_runner.Prelude.Json.{num, str, obj, end, field}
use code_runner.Prelude.State.{State, ◌>>=◌, pure}
use code_runner.Redis.{Redis}
use code_runner.Contract.{job_queue}
use code_runner.Api.Http.{Response, Gateway, query}

-- `${x}`
unfoldable pub show_number : Number → String
show_number nan = "NaN"
show_number (int (pos n)) = show n
show_number (int (negsuc n)) = "-" ++ show (suc n)

module _ (r : Redis) where
  open r use {Db, llen}

  unfoldable pub at_capacity : Number → State (Gateway Db) Bool
  at_capacity max_queue_depth = do
    depth ← query (llen job_queue)
    pure (ge_number depth max_queue_depth)

  -- the 429 answer; it counts the rejection
  unfoldable pub admission_error : ℕ → Number → State (Gateway Db) Response
  unfolding show_number
  admission_error depth cap g = (
    record {
      status = 429;
      body = obj (
          field "error"
            (str (
              "Executor at capacity (queue depth "
              ++ (show depth ++ (" ≥ " ++ (show_number cap ++ "). Retry shortly.")))))
            (field "retryAfterMs" (num 1000) end));
    },
    record g {
      metrics = record g.metrics { admission_rejected = g.metrics.admission_rejected + 1 };
    },
  )
