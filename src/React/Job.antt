-- ===== src/React/Job.antt =====
-- packages/code-runner-react/src/useCodeRunnerJob.ts: the view of one job that the hook keeps, with
-- one function for what each soketi event does to it. Pusher, which delivers the events, and React,
-- which renders the view, are outside the model: an event is an argument. `Array.sort` on numbers is
-- written out as an insertion sort.
pub mod Sorting
pub mod Order
pub mod Status
pub mod Subscription
use Prim.Native.String.{◌++◌}
use code_runner.Prelude.{
  ℕ, String, Bool, true, false, Option, none, some, List, [], ◌∷◌, map, ltb, eqb, or_default, join,
  is_some, if◌then◌else◌, ◌==◌,
}
use mathlib.Core.List
use code_runner.Contract.{
  JobState, StagePhase, OutputChunkEvent, ResultEvent, Artifact, channel_for_job,
}

pub data JobStatusState : Type 0 where
  idle queued running done : JobStatusState

-- STATUS_RANK
abbrev pub status_rank : JobStatusState → ℕ
status_rank JobStatusState.idle = 0
status_rank JobStatusState.queued = 1
status_rank JobStatusState.running = 2
status_rank JobStatusState.done = 3

unfoldable pub wire_state_to_status : JobState → JobStatusState
wire_state_to_status JobState.running = JobStatusState.running
wire_state_to_status JobState.done = JobStatusState.done
wire_state_to_status JobState.killed = JobStatusState.done
wire_state_to_status JobState.error = JobStatusState.done
wire_state_to_status JobState.queued = JobStatusState.queued
wire_state_to_status JobState.starting = JobStatusState.queued

-- a Map<number, string>, in the order of insertion
abbrev pub Buffer : Type 0
Buffer = List (ℕ × String)

unfoldable pub set : ℕ → String → Buffer → Buffer
set seq chunk [] = (seq, chunk) ∷ []
set seq chunk ((s, c) ∷ buffer) =
    if eqb s seq then (s, chunk) ∷ buffer else (s, c) ∷ set seq chunk buffer

unfoldable pub get : ℕ → Buffer → Option String
get seq [] = none
get seq ((s, c) ∷ buffer) = if eqb s seq then some c else get seq buffer

unfoldable pub keys : Buffer → List ℕ
keys [] = []
keys ((s, c) ∷ buffer) = s ∷ keys buffer

unfoldable pub insert : ℕ → List ℕ → List ℕ
insert n [] = n ∷ []
insert n (x ∷ xs) = if ltb n x then n ∷ x ∷ xs else x ∷ insert n xs

unfoldable pub sort : List ℕ → List ℕ
unfolding insert
sort [] = []
sort (x ∷ xs) = insert x (sort xs)

unfoldable pub reassemble : Buffer → String
unfolding sort get keys join
reassemble buffer = join "" (map (λ seq. or_default (get seq buffer) "") (sort (keys buffer)))

-- The state of the hook: what it returns, and its three buffers.
pub record JobView : Type 0 where
  pub stage : Option StagePhase
  pub stdout : String
  pub stderr : String
  pub compile_output : String
  pub result : Option ResultEvent
  pub artifacts : List Artifact
  pub status : JobStatusState
  pub stdout_buf : Buffer
  pub stderr_buf : Buffer
  pub compile_buf : Buffer

-- `channel ?? (jobId ? ... : null)`
unfoldable pub channel_name : Option String → String → Option String
channel_name (some channel) job_id = some channel
channel_name none job_id = if job_id == "" then none else some (channel_for_job job_id)

-- The view when the effect starts for a channel, or for none.
unfoldable pub reset : Option String → JobView
reset channel = record {
  stage = none;
  stdout = "";
  stderr = "";
  compile_output = "";
  result = none;
  artifacts = [];
  status = if is_some channel then JobStatusState.queued else JobStatusState.idle;
  stdout_buf = [];
  stderr_buf = [];
  compile_buf = [];
}

-- What comes in: the six events of the channel, and the answer of a status pull.
pub data HookEvent : Type 0 where
  stage : StagePhase → HookEvent
  stdout stderr compile_output : OutputChunkEvent → HookEvent
  result : ResultEvent → HookEvent
  artifact : Artifact → HookEvent
  resolved : (active : Bool) → Option JobState → HookEvent

abbrev pub phase_status : StagePhase → JobStatusState
phase_status StagePhase.queued = JobStatusState.queued
phase_status StagePhase.compiling = JobStatusState.running
phase_status StagePhase.running = JobStatusState.running

-- a pulled status is adopted only if it is ahead
abbrev pub ahead : JobStatusState → JobStatusState → JobStatusState
ahead pulled prev = if ltb (status_rank prev) (status_rank pulled) then pulled else prev

unfoldable pub handle : HookEvent → JobView → JobView
unfolding set reassemble wire_state_to_status
handle (HookEvent.stage phase) v = record v { stage = some phase; status = phase_status phase }
handle (HookEvent.stdout e) v =
    let buf = set e.seq e.chunk v.stdout_buf in
    record v { stdout_buf = buf; stdout = reassemble buf; status = JobStatusState.running }
handle (HookEvent.stderr e) v =
    let buf = set e.seq e.chunk v.stderr_buf in
    record v { stderr_buf = buf; stderr = reassemble buf; status = JobStatusState.running }
handle (HookEvent.compile_output e) v =
    let buf = set e.seq e.chunk v.compile_buf in
    record v { compile_buf = buf; compile_output = reassemble buf; status = JobStatusState.running }
handle (HookEvent.result r) v = record v { result = some r; status = JobStatusState.done }
handle (HookEvent.artifact a) v = record v { artifacts = List.◌++◌ v.artifacts (a ∷ []) }
handle (HookEvent.resolved false state) v = v
handle (HookEvent.resolved true none) v = v
handle (HookEvent.resolved true (some state)) v = record v {
  status = ahead (wire_state_to_status state) v.status;
}

-- the events one after another
unfoldable pub deliver : List HookEvent → JobView → JobView
unfolding handle
deliver [] v = v
deliver (e ∷ es) v = deliver es (handle e v)
