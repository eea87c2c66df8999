-- ===== src/React/Job/Subscription.antt =====
-- packages/code-runner-react/src/useCodeRunnerJob.ts: the effect that subscribes, its cleanup and the
-- refs of the callbacks, over the renders of one hook. A client of pusher-js, a callback and a run of
-- the effect are each known by a number. What pusher-js delivers for a channel goes to the handlers
-- bound there; what a pull of the status answers, and when, comes from outside.
pub mod Session
pub mod Counting
pub mod Refinement
use code_runner.Prelude.{
  ℕ, suc, String, Bool, true, false, ◌&&◌, not, Option, none, some, List, [], ◌∷◌, ◌==◌, any, eqb,
  filter, if◌then◌else◌,
}
use code_runner.Contract.{JobState}
use code_runner.React.Job.{JobView, HookEvent, reset, handle}

-- `[pusher, channelName]`
pub record Deps : Type 0 where
  pub pusher : ℕ
  pub channel : Option String

-- `onSubscribedRef` and `onResolveStatusRef`
pub record Refs : Type 0 where
  pub on_subscribed : Option ℕ
  pub on_resolve_status : Option ℕ

-- the handlers that one run of the effect has bound
pub record Binding : Type 0 where
  pub run : ℕ
  pub pusher : ℕ
  pub channel : String

-- A call of a callback, the promise of a pull with the run that asked for it.
pub record Hook : Type 0 where
  pub deps : Option Deps
  pub refs : Refs
  pub next_run : ℕ
  -- the cleanup that the last run returned, with what it closes over
  pub cleanup : Option Binding
  -- the runs whose `active` is true
  pub active : List ℕ
  pub bound : List Binding
  -- the channels that each client of pusher-js is subscribed to for this hook
  pub channels : List (ℕ × String)
  pub pulls : List ℕ
  pub called : List ℕ
  pub view : JobView

abbrev pub no_refs : Refs
no_refs = record { on_subscribed = none; on_resolve_status = none }

-- before the first render
abbrev pub unmounted : Hook
unmounted = record {
  deps = none;
  refs = no_refs;
  next_run = 0;
  cleanup = none;
  active = [];
  bound = [];
  channels = [];
  pulls = [];
  called = [];
  view = reset none;
}

abbrev pub same_channel : Option String → Option String → Bool
same_channel none none = true
same_channel (some a) (some b) = a == b
same_channel _ _ = false

-- the comparison of the dependencies
abbrev pub same_deps : Option Deps → Deps → Bool
same_deps none d = false
same_deps (some c) d = eqb c.pusher d.pusher && same_channel c.channel d.channel

abbrev pub without : ℕ → List ℕ → List ℕ
without n ns = filter (λ k. not (eqb k n)) ns

abbrev same_subscription : ℕ → String → ℕ × String → Bool
same_subscription pusher channel c = eqb c.0 pusher && c.1 == channel

-- `pusher.subscribe`, which a channel that is there already only returns
abbrev pub with_channel : ℕ → String → List (ℕ × String) → List (ℕ × String)
with_channel pusher channel cs =
    if any (same_subscription pusher channel) cs then cs else (pusher, channel) ∷ cs

-- `pusher.unsubscribe`
abbrev pub without_channel : ℕ → String → List (ℕ × String) → List (ℕ × String)
without_channel pusher channel cs = filter (λ c. not (same_subscription pusher channel c)) cs

-- the cleanup of a run: `active = false`, each `unbind`, and `unsubscribe`
abbrev clean_run : Option Binding → Hook → Hook
clean_run none h = h
clean_run (some b) h = record h {
  cleanup = none;
  active = without b.run h.active;
  bound = filter (λ c. not (eqb c.run b.run)) h.bound;
  channels = without_channel b.pusher b.channel h.channels;
}

pub clean_up : Hook → Hook
clean_up h = clean_run h.cleanup h

-- the rest of the effect, for a channel: `subscribe` and each `bind`
abbrev subscribe : ℕ → Option String → Hook → Hook
subscribe pusher none h = h
subscribe pusher (some channel) h =
    let b : Binding = record { run = h.next_run; pusher = pusher; channel = channel } in
    record h {
      next_run = suc h.next_run;
      cleanup = some b;
      active = h.next_run ∷ h.active;
      bound = b ∷ h.bound;
      channels = with_channel pusher channel h.channels;
    }

pub run_effect : Deps → Hook → Hook
run_effect d h = subscribe d.pusher d.channel (record h { deps = some d; view = reset d.channel })

-- a render that is committed, with its callbacks
pub render : Deps → Refs → Hook → Hook
unfolding clean_up run_effect
render d refs h =
    if same_deps h.deps d
    then record h { refs = refs }
    else run_effect d (clean_up (record h { refs = refs }))

pub unmount : Hook → Hook
unfolding clean_up
unmount h = record (clean_up h) { deps = none }

abbrev pub listens : ℕ → String → Binding → Bool
listens pusher channel b = eqb b.pusher pusher && b.channel == channel

-- an event of the channel, given to each binding in turn
abbrev deliver_to : ℕ → String → HookEvent → List Binding → JobView → JobView
deliver_to pusher channel e [] v = v
deliver_to pusher channel e (b ∷ bs) v =
    deliver_to pusher channel e bs (if listens pusher channel b then handle e v else v)

pub on_event : ℕ → String → HookEvent → Hook → Hook
on_event pusher channel e h = record h { view = deliver_to pusher channel e h.bound h.view }

abbrev pub add : Option ℕ → List ℕ → List ℕ
add none ns = ns
add (some n) ns = n ∷ ns

-- a pull is started only with a callback for it
abbrev pub add_pull : Option ℕ → ℕ → List ℕ → List ℕ
add_pull none n ns = ns
add_pull (some f) n ns = n ∷ ns

-- `onSubscriptionSucceeded` of a binding
abbrev succeed : Binding → Hook → Hook
succeed b h = record h {
  called = add h.refs.on_resolve_status (add h.refs.on_subscribed h.called);
  pulls = add_pull h.refs.on_resolve_status b.run h.pulls;
}

abbrev succeed_all : ℕ → String → List Binding → Hook → Hook
succeed_all pusher channel [] h = h
succeed_all pusher channel (b ∷ bs) h =
    succeed_all pusher channel bs (if listens pusher channel b then succeed b h else h)

pub on_subscription_succeeded : ℕ → String → Hook → Hook
on_subscription_succeeded pusher channel h = succeed_all pusher channel h.bound h

abbrev pub one_of : ℕ → List ℕ → Bool
one_of n ns = any (λ k. eqb k n) ns

-- the list without the first entry of the number
abbrev pub remove_one : ℕ → List ℕ → List ℕ
remove_one n [] = []
remove_one n (k ∷ ns) = if eqb k n then ns else k ∷ remove_one n ns

-- A pull of a run is answered, or it fails (`catch`), which changes nothing in the view.
pub on_answer : ℕ → Option JobState → Hook → Hook
on_answer n state h =
    if one_of n h.pulls
    then record h {
      pulls = remove_one n h.pulls;
      view = handle (HookEvent.resolved (one_of n h.active) state) h.view;
    }
    else h

pub on_failure : ℕ → Hook → Hook
on_failure n h = record h { pulls = remove_one n h.pulls }

pub data Input : Type 0 where
  renders : Deps → Refs → Input
  unmounts : Input
  receives : ℕ → String → HookEvent → Input
  subscribed : ℕ → String → Input
  answers : ℕ → Option JobState → Input
  fails : ℕ → Input

pub step : Input → Hook → Hook
unfolding render unmount on_event on_subscription_succeeded on_answer on_failure
step (renders d refs) h = render d refs h
step unmounts h = unmount h
step (receives pusher channel e) h = on_event pusher channel e h
step (subscribed pusher channel) h = on_subscription_succeeded pusher channel h
step (answers n state) h = on_answer n state h
step (fails n) h = on_failure n h

unfoldable pub run : List Input → Hook → Hook
unfolding step
run [] h = h
run (i ∷ is) h = run is (step i h)
