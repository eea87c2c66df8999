-- ===== src/Tests/Subscription.antt =====
-- A hook that changes to another job while the status of the first is being pulled.
use mathlib.Core.Option
use code_runner.Prelude.{some, List, [], ◌∷◌, ◌≡◌, refl}
use code_runner.Contract.{JobState, StagePhase}
use code_runner.React.Job.{JobStatusState, HookEvent, reset, deliver}
use code_runner.React.Job.Subscription.{
  Refs, Input, renders, receives, subscribed, answers, unmounted, run,
}
use code_runner.React.Job.Subscription.Session.{silent, run_session, to_list}
use code_runner.React.Job.Subscription.Refinement.{run-Session}

abbrev refs : Refs
refs = record { on_subscribed = some 1; on_resolve_status = some 2 }

abbrev inputs : List Input
inputs =
    renders (record { pusher = 0; channel = some "private-run-a" }) refs
    ∷ subscribed 0 "private-run-a"
    ∷ receives 0 "private-run-a" (HookEvent.stage StagePhase.compiling)
    ∷ renders (record { pusher = 0; channel = some "private-run-b" }) refs
    ∷ subscribed 0 "private-run-b"
    ∷ answers 0 (some JobState.done)
    ∷ receives 0 "private-run-a" (HookEvent.stage StagePhase.running)
    ∷ answers 1 (some JobState.running)
    ∷ []

-- the first job's answer and its late event leave no trace
shown :
    (run inputs unmounted).view
    ≡ record (reset (some "private-run-b")) { status = JobStatusState.running }
unfolding run code_runner.React.Job.handle reset
shown = refl

run-Session_example :
    ((run inputs unmounted).view
      ≡ deliver (run_session inputs silent).0.heard (reset (run_session inputs silent).0.channel))
    × ((run inputs unmounted).bound ≡ to_list (run_session inputs silent).1)
    × ((run inputs unmounted).channels
        ≡ to_list (Option.map (λ b. (b.pusher, b.channel)) (run_session inputs silent).1))
    × ((run inputs unmounted).called ≡ (run_session inputs silent).0.called)
run-Session_example = run-Session inputs
