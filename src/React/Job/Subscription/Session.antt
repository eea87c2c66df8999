-- ===== src/React/Job/Subscription/Session.antt =====
-- The hook against one subscription at a time: which events make up what it shows.
use mathlib.Core.List
use code_runner.Prelude.{
  ℕ, suc, ◌+◌, ◌-◌, String, true, ◌&&◌, Option, none, some, List, [], ◌∷◌, eqb, ltb, if◌then◌else◌,
}
use code_runner.React.Job.{HookEvent}
use code_runner.React.Job.Subscription.{
  Deps, Refs, Binding, no_refs, same_deps, listens, add, Input, renders, unmounts, receives,
  subscribed, answers, fails,
}

-- What is kept for the present subscription, if there is one: the events that it heard since it
-- began, and how many of its own pulls are open.
pub record Session : Type 0 where
  pub deps : Option Deps
  pub refs : Refs
  pub next_run : ℕ
  pub open_pulls : ℕ
  pub called : List ℕ
  pub channel : Option String
  pub heard : List HookEvent

abbrev pub Listening : Type 0
Listening = Session × Option Binding

abbrev pub silent : Listening
silent = (
  record {
    deps = none;
    refs = no_refs;
    next_run = 0;
    open_pulls = 0;
    called = [];
    channel = none;
    heard = [];
  },
  none,
)

abbrev pub begin : ℕ → Option String → Session → Listening
begin pusher none s = (s, none)
begin pusher (some channel) s = (
  record s { next_run = suc s.next_run },
  some (record { run = s.next_run; pusher = pusher; channel = channel }),
)

abbrev pub hear : HookEvent → Session → Session
hear e s = record s { heard = List.◌++◌ s.heard (e ∷ []) }

abbrev pub more : Option ℕ → ℕ
more none = 0
more (some f) = 1

abbrev pub confirm : Session → Session
confirm s = record s {
  called = add s.refs.on_resolve_status (add s.refs.on_subscribed s.called);
  open_pulls = s.open_pulls + more s.refs.on_resolve_status;
}

-- Only a change of dependencies starts anew; only the present subscription is heard.
unfoldable pub session_step : Input → Listening → Listening
session_step (renders d refs) (s, sub) =
    if same_deps s.deps d
    then (record s { refs = refs }, sub)
    else begin d.pusher d.channel
        (record s { deps = some d; refs = refs; open_pulls = 0; channel = d.channel; heard = [] })
session_step unmounts (s, sub) = (record s { deps = none; open_pulls = 0 }, none)
session_step (receives pusher channel e) (s, none) = (s, none)
session_step (receives pusher channel e) (s, some b) =
    (if listens pusher channel b then hear e s else s, some b)
session_step (subscribed pusher channel) (s, none) = (s, none)
session_step (subscribed pusher channel) (s, some b) =
    (if listens pusher channel b then confirm s else s, some b)
session_step (answers n state) (s, none) = (s, none)
session_step (answers n state) (s, some b) = (
  if eqb b.run n && ltb 0 s.open_pulls
      then hear (HookEvent.resolved true state) (record s { open_pulls = s.open_pulls - 1 })
      else s,
  some b,
)
session_step (fails n) (s, none) = (s, none)
session_step (fails n) (s, some b) =
    (if eqb b.run n then record s { open_pulls = s.open_pulls - 1 } else s, some b)

unfoldable pub run_session : List Input → Listening → Listening
unfolding session_step
run_session [] s = s
run_session (i ∷ is) s = run_session is (session_step i s)

abbrev pub to_list {ℓ} : {A : Type ℓ} → Option A → List A
to_list none = []
to_list (some a) = a ∷ []
