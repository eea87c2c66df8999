-- ===== src/React/Job/Status.antt =====
-- The status that the hook shows: what a pull may change, and what ends a job.
use code_runner.Prelude.{
  ◌≤◌, Bool, true, false, ◌&&◌, ◌||◌, not, any, is_some, ap, ◌∙◌, Option, none, some, List, [], ◌∷◌,
  ◌≡◌, refl, arith, ltb, All, Bool-cases, inl, inr, ◌⊎◌,
}
use code_runner.Contract.{JobState, StagePhase}
use code_runner.React.Job.{
  JobStatusState, status_rank, wire_state_to_status, JobView, HookEvent, ahead, handle, deliver,
}

-- An event that neither starts a stage nor brings output.
abbrev pub IsQuiet : HookEvent → Type 0
IsQuiet (HookEvent.stage phase) = ⊥
IsQuiet (HookEvent.stdout e) = ⊥
IsQuiet (HookEvent.stderr e) = ⊥
IsQuiet (HookEvent.compile_output e) = ⊥
IsQuiet (HookEvent.result r) = Unit
IsQuiet (HookEvent.artifact a) = Unit
IsQuiet (HookEvent.resolved active state) = Unit

rank-ahead :
    (pulled prev : JobStatusState)
    → (status_rank prev ≤ status_rank (ahead pulled prev))
      × (status_rank pulled ≤ status_rank (ahead pulled prev))
      × ((ahead pulled prev ≡ pulled) ⊎ (ahead pulled prev ≡ prev))
rank-ahead pulled prev = elim (Bool-cases (ltb (status_rank prev) (status_rank pulled))) [
  | inl e ↦ rw e (ground (arith, e), omega arith, inl refl)
  | inr e ↦ rw e (omega arith, ground (arith, e), inr refl)
]

quiet_rank :
    (e : HookEvent) (v : JobView)
    → IsQuiet e
    → status_rank v.status ≤ status_rank (handle e v).status
unfolding handle
quiet_rank (HookEvent.stage phase) v h = absurd h
quiet_rank (HookEvent.stdout e) v h = absurd h
quiet_rank (HookEvent.stderr e) v h = absurd h
quiet_rank (HookEvent.compile_output e) v h = absurd h
quiet_rank (HookEvent.result r) v h = below_done v.status
  where
    below_done : (s : JobStatusState) → status_rank s ≤ 3
    below_done JobStatusState.idle = omega arith
    below_done JobStatusState.queued = omega arith
    below_done JobStatusState.running = omega arith
    below_done JobStatusState.done = omega arith
quiet_rank (HookEvent.artifact a) v h = omega arith
quiet_rank (HookEvent.resolved false state) v h = omega arith
quiet_rank (HookEvent.resolved true none) v h = omega arith
quiet_rank (HookEvent.resolved true (some state)) v h =
    (rank-ahead (wire_state_to_status state) v.status).0

-- Pulled statuses, results and artifacts, however many, never take the status back to an earlier
-- one.
pub deliver-quiet :
    (es : List HookEvent) (v : JobView)
    → All IsQuiet es
    → status_rank v.status ≤ status_rank (deliver es v).status
unfolding deliver
deliver-quiet [] v h = omega arith
deliver-quiet (e ∷ es) v (h, hs) =
    let first = quiet_rank e v h in let rest = deliver-quiet es (handle e v) hs in omega arith

-- The answer of a pull changes nothing but the status. If it comes in after the effect has ended, or
-- is null, it does not change that either; if not, the status is then the later one of the two: it
-- is one of them, and neither is ahead of it.
pub pull_takes_the_later :
    (state : JobState) (s : Option JobState) (v : JobView)
    → (handle (HookEvent.resolved false s) v ≡ v)
      × (handle (HookEvent.resolved true none) v ≡ v)
      × (let w = handle (HookEvent.resolved true (some state)) v in
          (record w { status = v.status } ≡ v)
          × (status_rank v.status ≤ status_rank w.status)
          × (status_rank (wire_state_to_status state) ≤ status_rank w.status)
          × ((w.status ≡ wire_state_to_status state) ⊎ (w.status ≡ v.status)))
unfolding handle
pull_takes_the_later state s v =
    let (kept, reached, one) = rank-ahead (wire_state_to_status state) v.status in
    (refl, refl, (refl, kept, reached, one))

abbrev pub is_done : JobStatusState → Bool
is_done JobStatusState.done = true
is_done _ = false

-- a final state of the wire
abbrev pub is_final : JobState → Bool
is_final JobState.done = true
is_final JobState.killed = true
is_final JobState.error = true
is_final _ = false

-- An event that starts a stage or brings output.
abbrev pub is_loud : HookEvent → Bool
is_loud (HookEvent.stage phase) = true
is_loud (HookEvent.stdout e) = true
is_loud (HookEvent.stderr e) = true
is_loud (HookEvent.compile_output e) = true
is_loud _ = false

abbrev pub is_result : HookEvent → Bool
is_result (HookEvent.result r) = true
is_result _ = false

-- A result, or the answer of a pull in time with a final state.
abbrev pub closes : HookEvent → Bool
closes (HookEvent.result r) = true
closes (HookEvent.resolved true (some state)) = is_final state
closes _ = false

-- whether a stage or output comes with nothing behind it that closes the job
abbrev pub open_end : List HookEvent → Bool
open_end [] = false
open_end (e ∷ es) = open_end es || (is_loud e && not (any closes es))

done-ahead :
    (pulled prev : JobStatusState) → is_done (ahead pulled prev) ≡ (is_done pulled || is_done prev)
done-ahead JobStatusState.idle JobStatusState.idle = refl
done-ahead JobStatusState.idle JobStatusState.queued = refl
done-ahead JobStatusState.idle JobStatusState.running = refl
done-ahead JobStatusState.idle JobStatusState.done = refl
done-ahead JobStatusState.queued JobStatusState.idle = refl
done-ahead JobStatusState.queued JobStatusState.queued = refl
done-ahead JobStatusState.queued JobStatusState.running = refl
done-ahead JobStatusState.queued JobStatusState.done = refl
done-ahead JobStatusState.running JobStatusState.idle = refl
done-ahead JobStatusState.running JobStatusState.queued = refl
done-ahead JobStatusState.running JobStatusState.running = refl
done-ahead JobStatusState.running JobStatusState.done = refl
done-ahead JobStatusState.done JobStatusState.idle = refl
done-ahead JobStatusState.done JobStatusState.queued = refl
done-ahead JobStatusState.done JobStatusState.running = refl
done-ahead JobStatusState.done JobStatusState.done = refl

done-wire : (state : JobState) → is_done (wire_state_to_status state) ≡ is_final state
unfolding wire_state_to_status
done-wire JobState.queued = refl
done-wire JobState.starting = refl
done-wire JobState.running = refl
done-wire JobState.done = refl
done-wire JobState.killed = refl
done-wire JobState.error = refl

is_done-ahead :
    (state : JobState) (prev : JobStatusState)
    → is_done (ahead (wire_state_to_status state) prev) ≡ (is_final state || is_done prev)
is_done-ahead state prev =
    done-ahead (wire_state_to_status state) prev ∙ ap (λ b. b || is_done prev) (done-wire state)

is_done-handle :
    (e : HookEvent) (v : JobView)
    → is_done (handle e v).status ≡ (closes e || (is_done v.status && not (is_loud e)))
unfolding handle
is_done-handle (HookEvent.stage StagePhase.queued) v = ground arith
is_done-handle (HookEvent.stage StagePhase.compiling) v = ground arith
is_done-handle (HookEvent.stage StagePhase.running) v = ground arith
is_done-handle (HookEvent.stdout e) v = ground arith
is_done-handle (HookEvent.stderr e) v = ground arith
is_done-handle (HookEvent.compile_output e) v = ground arith
is_done-handle (HookEvent.result r) v = refl
is_done-handle (HookEvent.artifact a) v = ground arith
is_done-handle (HookEvent.resolved false state) v = ground arith
is_done-handle (HookEvent.resolved true none) v = ground arith
is_done-handle (HookEvent.resolved true (some state)) v =
    is_done-ahead state v.status ∙ ground arith

loud_or_closing : (e : HookEvent) → (is_loud e && closes e) ≡ false
loud_or_closing (HookEvent.stage phase) = refl
loud_or_closing (HookEvent.stdout e) = refl
loud_or_closing (HookEvent.stderr e) = refl
loud_or_closing (HookEvent.compile_output e) = refl
loud_or_closing (HookEvent.result r) = refl
loud_or_closing (HookEvent.artifact a) = refl
loud_or_closing (HookEvent.resolved active state) = refl

closed_first :
    (opened later closing loud was : Bool)
    → (loud && closing) ≡ false
    → (not opened && (later || (closing || (was && not loud))))
      ≡ (not (opened || (loud && not later)) && ((closing || later) || was))
closed_first opened later closing loud was h = ground arith

shown :
    (e : HookEvent) (v : JobView) → is_some (handle e v).result ≡ (is_result e || is_some v.result)
unfolding handle
shown (HookEvent.stage phase) v = refl
shown (HookEvent.stdout e) v = refl
shown (HookEvent.stderr e) v = refl
shown (HookEvent.compile_output e) v = refl
shown (HookEvent.result r) v = refl
shown (HookEvent.artifact a) v = refl
shown (HookEvent.resolved false state) v = refl
shown (HookEvent.resolved true none) v = refl
shown (HookEvent.resolved true (some state)) v = refl

-- After any events, on any view: the status is done exactly if something closed the job, a result or
-- a final state that was pulled in time, or it was done before, and no stage and no output came after
-- the last event that closed it. A result is shown exactly if one came or was there, so output behind
-- the result leaves the result shown with a status that is not done.
pub deliver-closed :
    (es : List HookEvent) (v : JobView)
    → (is_done (deliver es v).status ≡ (not (open_end es) && (any closes es || is_done v.status)))
      × (is_some (deliver es v).result ≡ (any is_result es || is_some v.result))
unfolding deliver
deliver-closed [] v = (refl, refl)
deliver-closed (e ∷ es) v =
    let (status, result) = deliver-closed es (handle e v) in
    (
      status
          ∙ ap (λ b. not (open_end es) && (any closes es || b)) (is_done-handle e v)
          ∙ closed_first (open_end es) (any closes es) (closes e) (is_loud e) (is_done v.status)
              (loud_or_closing e),
      result ∙ ap (λ b. any is_result es || b) (shown e v) ∙ ground arith,
    )
