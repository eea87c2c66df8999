-- ===== src/Tests/Concurrent.antt =====
-- The theorems on interleaved requests at concrete inputs.
use code_runner.Prelude.{◌+◌, ◌<◌, [], ◌∷◌, refl, arith, ◌≤◌, inr}
use native.Mathlib.Decide.{ℕ_discrete}
use code_runner.Prelude.Int.{pos, int}
use code_runner.Prelude.Slots.{Reach, start, later, pick}
use code_runner.Redis.Memory.{memory}
use code_runner.Api.Config.{Config}
use code_runner.Api.Execute.Concurrent.{
  Job, Phase, queue_length, Move, arrive, go, Drains, Requests,
}
use code_runner.Api.Execute.Concurrent.Depth.{Reach-queue_length}
use code_runner.Api.Stdin.Concurrent as Stdin
use code_runner.Api.Stdin.Concurrent.{Frames, Leaves, sent_bytes}
use code_runner.Api.Stdin.Concurrent.Cap.{Reach-sent_bytes}
use code_runner.Tests.Fixtures.{python, config, request, ambient, idle}

abbrev pub job : Job
job = record { ambient = ambient; manifest = python; body = request }

-- room for one job
abbrev narrow : Config
narrow = record config { max_queue_depth = int (pos 1) }

abbrev quiet : Requests memory narrow (python ∷ [])
quiet = record { shared = idle; slots = λ i. Phase.free }

-- one request is in front of its pipeline
checked_once :
    (t : Requests memory narrow (python ∷ [])) × Reach
      (Move memory narrow (python ∷ []))
      (Drains memory narrow (python ∷ []))
      2
      quiet
      t
unfolding ℕ_discrete
checked_once = (
  _,
  later (later start (pick 0 (omega arith) (arrive job)))
      (pick 0 (omega arith) (go (Phase.arrived job))),
)

Reach-queue_length_example : queue_length memory narrow (python ∷ []) checked_once.0.shared < 1 + 2
Reach-queue_length_example =
    Reach-queue_length memory narrow (python ∷ []) 1 2 quiet checked_once.0 refl (λ i h. refl)
      (omega arith) checked_once.1

-- no frame in flight, and one that has been counted
abbrev silent : Frames memory "job-1"
silent = record { shared = idle; slots = λ i. Stdin.Phase.free }

counted_once :
    (t : Frames memory "job-1") × Reach
      (Stdin.Move memory "job-1")
      (Leaves memory "job-1")
      2
      silent
      t
unfolding ℕ_discrete
counted_once = (
  _,
  later (later start (pick 0 (omega arith) (Stdin.Move.arrive "y")))
      (pick 0 (omega arith) (Stdin.Move.go (Stdin.Phase.arrived "y"))),
)

Reach-sent_bytes_example :
    0 + sent_bytes memory "job-1" counted_once.0.shared ≤ 65536 + sent_bytes memory "job-1" idle
Reach-sent_bytes_example =
    Reach-sent_bytes memory "job-1" 2 0 silent counted_once.0 (λ i h. refl) (inr (refl, refl))
      (omega arith) counted_once.1
