-- ===== src/Tests/Stub.antt =====
-- The theorems on the end-to-end driver at concrete inputs.
use code_runner.Prelude.{true, false, none, some, is_some, any, List, [], ◌∷◌, ◌++◌, ◌≡◌, refl, ◌⊎◌}
use code_runner.Prelude.Json.{null}
use code_runner.Prelude.Result.{ok}
use code_runner.Contract.{ResultEvent}
use code_runner.Stub.{Post, Outcome, Event, run, bound, is_clean}
use code_runner.Stub.Posts.{starts, inputs, prompts, accepts_stdin, run-posts}
use code_runner.Stub.Verdict.{run-timeout, run-resolved, run-passes}
use code_runner.Stub.Steps.{shows_hello}

abbrev session : List Event
session =
    Event.subscription_succeeded
    ∷ Event.start_answered (ok null)
    ∷ Event.stdout "name? "
    ∷ Event.stdin_answered (ok null)
    ∷ Event.stdout "hello World"
    ∷ Event.close_answered (ok null)
    ∷ []

abbrev exit_0 : ResultEvent
exit_0 = record {
  exit_code = some 0;
  signal = none;
  timed_out = false;
  idle_timed_out = false;
  truncated = false;
  duration_ms = 40;
}

run-posts_example :
    (starts (run "private-run-job-1" 60000 session bound).posts ≡ 1)
    × ((inputs (run "private-run-job-1" 60000 session bound).posts ≡ Post.stdin ∷ [])
        ⊎ ((inputs (run "private-run-job-1" 60000 session bound).posts
              ≡ Post.stdin ∷ Post.stdin_close ∷ [])
            × (any prompts session ≡ true)
            × (any accepts_stdin session ≡ true)))
unfolding code_runner.Prelude.includes
run-posts_example = run-posts "private-run-job-1" 60000 session

run-timeout_example :
    is_some (run "private-run-job-1" 60000 (session ++ Event.timeout ∷ []) bound).settled ≡ true
run-timeout_example = run-timeout "private-run-job-1" 60000 session []

run-passes_example :
    (run "private-run-job-1" 60000 (session ++ Event.result exit_0 ∷ []) bound).settled
    ≡ some Outcome.resolved
unfolding code_runner.Stub.is_hello code_runner.Prelude.includes is_clean
run-passes_example = run-passes "private-run-job-1" 60000 session [] exit_0 refl refl refl

passes :
    (run "private-run-job-1" 60000 (session ++ Event.result exit_0 ∷ []) bound).settled
    ≡ some Outcome.resolved
unfolding run bound code_runner.Prelude.includes
passes = refl

run-resolved_example :
    (before after : List Event) × (r : ResultEvent) × (session ++ Event.result exit_0 ∷ []
      ≡ before ++ Event.result r ∷ after)
    × ((run "private-run-job-1" 60000 before bound).settled ≡ none)
    × (is_clean r ≡ true)
    × (any shows_hello before ≡ true)
run-resolved_example =
    run-resolved "private-run-job-1" 60000 (session ++ Event.result exit_0 ∷ []) passes
