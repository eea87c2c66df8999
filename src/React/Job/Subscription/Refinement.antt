-- ===== src/React/Job/Subscription/Refinement.antt =====
-- Every input to the hook is one input to its session.
use mathlib.Core.Option
use mathlib.Core.List
use code_runner.Prelude.{
  ℕ, ◌+◌, ◌<◌, String, true, false, ◌&&◌, Option, none, some, List, [], ◌∷◌, ◌≡◌, refl, sym, ap,
  ◌∙◌, eq_refl, eqb, ltb, inl, inr, Bool-cases, arith,
}
use code_runner.Contract.{JobState}
use code_runner.React.Job.{JobView, HookEvent, reset, handle, deliver}
use code_runner.React.Job.Subscription.{
  Deps, Refs, Binding, Hook, unmounted, same_deps, listens, add_pull, one_of, remove_one, Input,
  renders, unmounts, receives, subscribed, answers, fails, step, run, render, run_effect, clean_up,
  subscribe, unmount, on_event, on_subscription_succeeded, on_answer, on_failure,
}
use code_runner.React.Job.Subscription.Session.{
  Session, Listening, silent, begin, more, session_step, run_session, to_list,
}
use code_runner.React.Job.Subscription.Counting.{
  count, Earlier, one_of-count, count-remove_one, count-remove_other, Earlier-remove_one,
  Earlier-suc, count-Earlier,
}

-- The hook of a session, with the pulls that are open, those of earlier subscriptions included.
abbrev hook_of : Listening → List ℕ → Hook
hook_of (s, sub) pulls = record {
  deps = s.deps;
  refs = s.refs;
  next_run = s.next_run;
  cleanup = sub;
  active = to_list (Option.map (λ b. b.run) sub);
  bound = to_list sub;
  channels = to_list (Option.map (λ b. (b.pusher, b.channel)) sub);
  pulls = pulls;
  called = s.called;
  view = deliver s.heard (reset s.channel);
}

-- the open pulls, counted for the present subscription
abbrev Owns : Listening → List ℕ → Type 0
Owns (s, none) pulls = Earlier s.next_run pulls
Owns (s, some b) pulls =
    Earlier s.next_run pulls × (b.run < s.next_run) × (count b.run pulls ≡ s.open_pulls)

deliver-snoc :
    (es : List HookEvent) (e : HookEvent) (v : JobView)
    → deliver (List.◌++◌ es (e ∷ [])) v ≡ handle e (deliver es v)
unfolding deliver
deliver-snoc [] e v = refl
deliver-snoc (x ∷ es) e v = deliver-snoc es e (handle x v)

-- One input to the hook is one input to its session.
abbrev Follows : Input → Listening → List ℕ → Type 0
Follows i s pulls =
    (pulls' : List ℕ) × (step i (hook_of s pulls) ≡ hook_of (session_step i s) pulls')
    × Owns (session_step i s) pulls'

receives-Follows :
    (p : ℕ) (ch : String) (e : HookEvent) (s : Listening) (pulls : List ℕ)
    → Owns s pulls
    → Follows (receives p ch e) s pulls
unfolding step session_step on_event
receives-Follows p ch e (s, none) pulls own = (pulls, refl, own)
receives-Follows p ch e (s, some b) pulls own = elim (Bool-cases (listens p ch b)) [
  | inl hit ↦ (
    pulls,
    rw hit (
        ap (λ v. record (hook_of (s, some b) pulls) { view = v })
          (sym (deliver-snoc s.heard e (reset s.channel)))),
    rw hit own,
  )
  | inr miss ↦ (pulls, rw miss refl, rw miss own)
]

add_pull-Owns :
    (f : Option ℕ) (s : Session) (b : Binding) (pulls : List ℕ)
    → Owns (s, some b) pulls
    → Earlier s.next_run (add_pull f b.run pulls)
      × (count b.run (add_pull f b.run pulls) ≡ s.open_pulls + more f)
add_pull-Owns none s b pulls own = (own.0, ground (arith, own.2))
add_pull-Owns (some f) s b pulls own = ((own.1, own.0), ground (arith, own.2))

subscribed-Follows :
    (p : ℕ) (ch : String) (s : Listening) (pulls : List ℕ)
    → Owns s pulls
    → Follows (subscribed p ch) s pulls
unfolding step session_step on_subscription_succeeded
subscribed-Follows p ch (s, none) pulls own = (pulls, refl, own)
subscribed-Follows p ch (s, some b) pulls own = elim (Bool-cases (listens p ch b)) [
  | inl hit ↦
      let kept = add_pull-Owns s.refs.on_resolve_status s b pulls own in
      (add_pull s.refs.on_resolve_status b.run pulls, rw hit refl, rw hit (kept.0, own.1, kept.1))
  | inr miss ↦ (pulls, rw miss refl, rw miss own)
]

-- an answer that is open belongs to the present subscription, or to an earlier one and is dropped
answers-Follows :
    (n : ℕ) (state : Option JobState) (s : Listening) (pulls : List ℕ)
    → Owns s pulls
    → Follows (answers n state) s pulls
unfolding step session_step on_answer handle
answers-Follows n state (s, none) pulls own = elim (Bool-cases (one_of n pulls)) [
  | inl is_open ↦ (remove_one n pulls, rw is_open refl, Earlier-remove_one s.next_run n pulls own)
  | inr closed ↦ (pulls, rw closed refl, own)
]
answers-Follows n state (s, some b) pulls own = elim (Bool-cases (one_of n pulls)) [
  | inl is_open ↦ elim (Bool-cases (eqb b.run n)) [
    | inl mine ↦
        let some_open : ltb 0 s.open_pulls ≡ true = ground (arith, one_of-count n pulls, own.2) in
        (
          remove_one n pulls,
          rw (is_open, mine, some_open)
              (ap (λ v. record (hook_of (s, some b) (remove_one n pulls)) { view = v })
                (sym (deliver-snoc s.heard (HookEvent.resolved true state) (reset s.channel)))),
          rw (mine, some_open)
              (
                Earlier-remove_one s.next_run n pulls own.0,
                own.1,
                ground (arith, count-remove_one n pulls, own.2),
              ),
        )
    | inr other ↦ (
      remove_one n pulls,
      rw (is_open, other) refl,
      rw other (
        Earlier-remove_one s.next_run n pulls own.0,
        own.1,
        count-remove_other n b.run pulls other ∙ own.2,
      ),
    )
  ]
  | inr closed ↦
      let ignored : (eqb b.run n && ltb 0 s.open_pulls) ≡ false =
        ground (arith, one_of-count n pulls, own.2) in
      (pulls, rw (closed, ignored) refl, rw ignored own)
]

fails-Follows : (n : ℕ) (s : Listening) (pulls : List ℕ) → Owns s pulls → Follows (fails n) s pulls
unfolding step session_step on_failure
fails-Follows n (s, none) pulls own =
    (remove_one n pulls, refl, Earlier-remove_one s.next_run n pulls own)
fails-Follows n (s, some b) pulls own = elim (Bool-cases (eqb b.run n)) [
  | inl mine ↦ (
    remove_one n pulls,
    rw mine refl,
    rw mine (
      Earlier-remove_one s.next_run n pulls own.0,
      own.1,
      ground (arith, count-remove_one n pulls, own.2),
    ),
  )
  | inr other ↦ (
    remove_one n pulls,
    rw other refl,
    rw other (
      Earlier-remove_one s.next_run n pulls own.0,
      own.1,
      count-remove_other n b.run pulls other ∙ own.2,
    ),
  )
]

eqb_self : (n : ℕ) → eqb n n ≡ true
eqb_self n = ground arith

unmounts-Follows : (s : Listening) (pulls : List ℕ) → Owns s pulls → Follows unmounts s pulls
unfolding step session_step unmount clean_up
unmounts-Follows (s, none) pulls own = (pulls, refl, own)
unmounts-Follows (s, some b) pulls own =
    (pulls, rw (eqb_self b.run, eqb_self b.pusher, eq_refl b.channel) refl, own.0)

abbrev begun : Deps → Refs → Session → Session
begun d refs s = record s {
  deps = some d;
  refs = refs;
  open_pulls = 0;
  channel = d.channel;
  heard = [];
}

clean_up-hook_of :
    (s : Session) (sub : Option Binding) (pulls : List ℕ)
    → clean_up (hook_of (s, sub) pulls) ≡ hook_of (s, none) pulls
unfolding clean_up
clean_up-hook_of s none pulls = refl
clean_up-hook_of s (some b) pulls = rw (eqb_self b.run, eqb_self b.pusher, eq_refl b.channel) refl

subscribe-hook_of :
    (pusher : ℕ) (channel : Option String) (s : Session) (pulls : List ℕ)
    → subscribe pusher channel (hook_of (s, none) pulls) ≡ hook_of (begin pusher channel s) pulls
subscribe-hook_of pusher none s pulls = refl
subscribe-hook_of pusher (some channel) s pulls = refl

begin-Owns :
    (pusher : ℕ) (channel : Option String) (s : Session) (pulls : List ℕ)
    → s.open_pulls ≡ 0
    → Earlier s.next_run pulls
    → Owns (begin pusher channel s) pulls
begin-Owns pusher none s pulls closed own = own
begin-Owns pusher (some channel) s pulls closed own =
    (Earlier-suc s.next_run pulls own, omega arith, count-Earlier s.next_run pulls own ∙ sym closed)

Owns-Earlier :
    (s : Session) (sub : Option Binding) (pulls : List ℕ)
    → Owns (s, sub) pulls
    → Earlier s.next_run pulls
Owns-Earlier s none pulls own = own
Owns-Earlier s (some b) pulls own = own.0

-- the callbacks of a render count for nothing else
refs-Owns :
    (refs : Refs) (s : Session) (sub : Option Binding) (pulls : List ℕ)
    → Owns (s, sub) pulls
    → Owns (record s { refs = refs }, sub) pulls
refs-Owns refs s none pulls own = own
refs-Owns refs s (some b) pulls own = own

renders-Follows :
    (d : Deps) (refs : Refs) (s : Listening) (pulls : List ℕ)
    → Owns s pulls
    → Follows (renders d refs) s pulls
unfolding step session_step render run_effect deliver
renders-Follows d refs (s, sub) pulls own = elim (Bool-cases (same_deps s.deps d)) [
  | inl same ↦ (pulls, rw same refl, rw same (refs-Owns refs s sub pulls own))
  | inr changed ↦ (
    pulls,
    rw changed (
        ap (run_effect d) (clean_up-hook_of (record s { refs = refs }) sub pulls)
        ∙ subscribe-hook_of d.pusher d.channel (begun d refs s) pulls),
    rw changed
        (begin-Owns d.pusher d.channel (begun d refs s) pulls refl (Owns-Earlier s sub pulls own)),
  )
]

step-Follows : (i : Input) (s : Listening) (pulls : List ℕ) → Owns s pulls → Follows i s pulls
step-Follows (renders d refs) s pulls own = renders-Follows d refs s pulls own
step-Follows unmounts s pulls own = unmounts-Follows s pulls own
step-Follows (receives p ch e) s pulls own = receives-Follows p ch e s pulls own
step-Follows (subscribed p ch) s pulls own = subscribed-Follows p ch s pulls own
step-Follows (answers n state) s pulls own = answers-Follows n state s pulls own
step-Follows (fails n) s pulls own = fails-Follows n s pulls own

run-Follows :
    (is : List Input) (s : Listening) (pulls : List ℕ)
    → Owns s pulls
    → (pulls' : List ℕ) × (run is (hook_of s pulls) ≡ hook_of (run_session is s) pulls')
unfolding run run_session
run-Follows [] s pulls own = (pulls, refl)
run-Follows (i ∷ is) s pulls own =
    let (pulls', same, own') = step-Follows i s pulls own in
    let (last, rest) = run-Follows is (session_step i s) pulls' own' in
    (last, ap (run is) same ∙ rest)

-- After any renders, unmounts, deliveries and answers in any order: the hook shows exactly the view
-- of the events that its last subscription heard from its start on, its own pulls included, on the
-- view that it started with; nothing is bound but the present subscription, and its channel is the
-- only one that a client of pusher-js is subscribed to for the hook; and the callbacks called are those that were due whenever the subscription present then was confirmed. An event for another
-- channel or client, and the answer to a pull of an earlier subscription, is not among what is heard.
pub run-Session :
    (is : List Input)
    → let h = run is unmounted in
      let s = run_session is silent in
      (h.view ≡ deliver s.0.heard (reset s.0.channel))
      × (h.bound ≡ to_list s.1)
      × (h.channels ≡ to_list (Option.map (λ b. (b.pusher, b.channel)) s.1))
      × (h.called ≡ s.0.called)
unfolding deliver
run-Session is =
    let (pulls, same) = run-Follows is silent [] tt in
    (
      ap (λ h. h.view) same,
      ap (λ h. h.bound) same,
      ap (λ h. h.channels) same,
      ap (λ h. h.called) same,
    )
