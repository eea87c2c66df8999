-- ===== src/Tests/Hook.antt =====
-- The theorems on the hook and on the resolution of a language at concrete inputs.
use code_runner.Prelude.{
  ℕ, ◌≤◌, String, Bool, true, false, none, some, List, [], ◌∷◌, ◌≡◌, refl, arith, join, find,
  if◌then◌else◌, eqb, ◌||◌,
}
use code_runner.Contract.{JobState, ResultEvent}
use code_runner.Contract.Manifests.{resolve_manifest}
use code_runner.Contract.Manifests.Resolution.{Agree, is_asked_for, resolve_manifest-find}
use code_runner.React.Job.{status_rank, HookEvent, deliver, reset}
use code_runner.React.Job.Order.{Stream, deliver_in_order}
use code_runner.React.Job.Status.{
  is_done, is_result, closes, open_end, deliver-quiet, deliver-closed,
}
use code_runner.Prelude.{Bool, ◌&&◌, ◌||◌, not, any, is_some}
use code_runner.Tests.Fixtures.{python}

abbrev letters : ℕ → String
letters n = if eqb n 0 then "a" else if eqb n 1 then "b" else "c"

abbrev exited : ResultEvent
exited = record {
  exit_code = some 0;
  signal = none;
  timed_out = false;
  idle_timed_out = false;
  truncated = false;
  duration_ms = 12;
}

abbrev chunk : ℕ → HookEvent
chunk n = HookEvent.stdout (record { chunk = letters n; seq = n })

-- the second chunk first, the result in between, and the first chunk twice
abbrev events : List HookEvent
events = chunk 1 ∷ chunk 0 ∷ HookEvent.result exited ∷ chunk 2 ∷ chunk 0 ∷ []

swapped : (a b c : Bool) → (b || (a || (c || (a || false)))) ≡ (a || (b || (c || false)))
swapped a b c = ground arith

deliver_in_order_example : (deliver events (reset (some "private-run-1"))).stdout ≡ "abc"
unfolding join
deliver_in_order_example =
    deliver_in_order letters Stream.out events (0 ∷ 1 ∷ 2 ∷ []) (some "private-run-1")
      (refl, (refl, (tt, (refl, (refl, tt))))) (omega arith, (omega arith, (omega arith, tt)))
      (λ k. swapped (eqb 0 k) (eqb 1 k) (eqb 2 k))

deliver-quiet_example :
    1
    ≤ status_rank
        (deliver
          (HookEvent.result exited ∷ HookEvent.resolved true (some JobState.queued) ∷ [])
          (reset (some "c"))).status
unfolding reset
deliver-quiet_example =
    deliver-quiet (HookEvent.result exited ∷ HookEvent.resolved true (some JobState.queued) ∷ [])
      (reset (some "c")) (tt, (tt, tt))

abbrev reopened : List HookEvent
reopened = HookEvent.result exited ∷ chunk 0 ∷ []

deliver-closed_example :
    (is_done (deliver reopened (reset (some "c"))).status
      ≡ (not (open_end reopened) && (any closes reopened || is_done (reset (some "c")).status)))
    × (is_some (deliver reopened (reset (some "c"))).result
        ≡ (any is_result reopened || is_some (reset (some "c")).result))
deliver-closed_example = deliver-closed reopened (reset (some "c"))

resolve_manifest-find_example :
    Agree
      (resolve_manifest (python ∷ []) "py" (some "3.12"))
      (find (is_asked_for "py" (some "3.12")) (python ∷ []))
resolve_manifest-find_example = resolve_manifest-find (python ∷ []) "py" (some "3.12")
