-- ===== src/Stub/Verdict.antt =====
-- How the end-to-end driver ends: with what outcome, and that it does.
use code_runner.Prelude.{
  ℕ, String, true, ◌||◌, none, some, is_some, List, [], ◌∷◌, ◌++◌, ◌≡◌, refl, ap, ◌⊎◌, inl, inr,
  arith, any, all, Option-cases,
}
use code_runner.Contract.{ResultEvent}
use code_runner.Stub.{Driver, Event, Outcome, handle, run, bound, is_clean}
use code_runner.Stub.Steps.{
  shows_hello, plainly_hello, is_quiet, seen, handle-settled, handle-timer, timeout-settles,
  handle-seen, handle-resolved, handle_quiet, handle_hello, handle-result,
}

module _ (channel : String) (e2e_timeout_ms : ℕ) where
  run-settled :
      (es : List Event) (s : Driver) (o : Outcome)
      → s.settled ≡ some o
      → (run channel e2e_timeout_ms es s).settled ≡ some o
  unfolding run
  run-settled [] s o h = h
  run-settled (e ∷ es) s o h =
      run-settled es (handle channel e2e_timeout_ms e s) o
        (handle-settled channel e2e_timeout_ms e s o h)

  run-append :
      (es fs : List Event) (s : Driver)
      → run channel e2e_timeout_ms (es ++ fs) s
        ≡ run channel e2e_timeout_ms fs (run channel e2e_timeout_ms es s)
  unfolding run
  run-append [] fs s = refl
  run-append (e ∷ es) fs s = run-append es fs (handle channel e2e_timeout_ms e s)

  run-timer :
      (es : List Event) (s : Driver)
      → (s.timer_set ≡ true) ⊎ (is_some s.settled ≡ true)
      → ((run channel e2e_timeout_ms es s).timer_set ≡ true)
        ⊎ (is_some (run channel e2e_timeout_ms es s).settled ≡ true)
  unfolding run
  run-timer [] s h = h
  run-timer (e ∷ es) s h =
      run-timer es (handle channel e2e_timeout_ms e s) (handle-timer channel e2e_timeout_ms e s h)

  run-is_some :
      (es : List Event) (s : Driver)
      → is_some s.settled ≡ true
      → is_some (run channel e2e_timeout_ms es s).settled ≡ true
  run-is_some es s h = elim (Option-cases s.settled) [
    | inl none_yet ↦ absurd (ground arith)
    | inr (o, e) ↦ ap is_some (run-settled es s o e)
  ]

  -- Once the time limit has passed, the promise is settled, whatever events came before it and
  -- behind it: each callback that clears the timer settles the promise.
  pub run-timeout :
      (es more : List Event)
      → is_some (run channel e2e_timeout_ms (es ++ Event.timeout ∷ more) bound).settled ≡ true
  unfolding run bound
  run-timeout es more = rw (run-append es (Event.timeout ∷ more) bound) (
      run-is_some more _ (
        timeout-settles channel e2e_timeout_ms (run channel e2e_timeout_ms es bound)
          (run-timer es bound (inl refl))))

  -- What a promise that is resolved shows of the events.
  record IsPassed (es : List Event) (s : Driver) : Type 0 where
    before : List Event
    after : List Event
    result : ResultEvent
    split : es ≡ before ++ Event.result result ∷ after
    open_before : (run channel e2e_timeout_ms before s).settled ≡ none
    clean : is_clean result ≡ true
    hello : seen s || any shows_hello before ≡ true

  run-IsPassed :
      (es : List Event) (s : Driver)
      → s.settled ≡ none
      → (run channel e2e_timeout_ms es s).settled ≡ some Outcome.resolved
      → IsPassed es s
  unfolding run
  run-IsPassed [] s h o = absurd (ground arith)
  run-IsPassed (e ∷ es) s h o = elim (Option-cases (handle channel e2e_timeout_ms e s).settled) [
    | inl still_open ↦
        let p = run-IsPassed es (handle channel e2e_timeout_ms e s) still_open o in
        record {
          before = e ∷ p.before;
          after = p.after;
          result = p.result;
          split = ap (λ l. e ∷ l) p.split;
          open_before = p.open_before;
          clean = p.clean;
          hello = ground (arith, p.hello, handle-seen channel e2e_timeout_ms e s);
        }
    | inr (o', now) ↦
        let same = run-settled es (handle channel e2e_timeout_ms e s) o' now in
        let (r, eq, clean, saw) =
          handle-resolved channel e2e_timeout_ms e s h (ground (arith, now, same, o)) in
        record {
          before = [];
          after = es;
          result = r;
          split = ap (λ x. x ∷ es) eq;
          open_before = h;
          clean = clean;
          hello = ground (arith, saw);
        }
  ]

  run_quiet :
      (es : List Event) (s : Driver)
      → all is_quiet es ≡ true
      → s.settled ≡ none
      → (run channel e2e_timeout_ms es s).settled ≡ none
  unfolding run
  run_quiet [] s q h = h
  run_quiet (e ∷ es) s q h =
      run_quiet es (handle channel e2e_timeout_ms e s) (ground arith)
        (handle_quiet channel e2e_timeout_ms e s (ground arith) h)

  run_hello :
      (es : List Event) (s : Driver)
      → s.saw_hello_world || any plainly_hello es ≡ true
      → (run channel e2e_timeout_ms es s).saw_hello_world ≡ true
  unfolding run
  run_hello [] s h = ground arith
  run_hello (e ∷ es) s h =
      run_hello es (handle channel e2e_timeout_ms e s)
        (ground (arith, handle_hello channel e2e_timeout_ms e s))

  -- The driver passes only a run that went well: where the promise is resolved, some result with
  -- exit code 0 and without a timeout came while the promise was open, and before it a chunk of the
  -- output with the expected text.
  pub run-resolved :
      (es : List Event)
      → (run channel e2e_timeout_ms es bound).settled ≡ some Outcome.resolved
      → (before after : List Event) × (r : ResultEvent) × (es ≡ before ++ Event.result r ∷ after)
        × ((run channel e2e_timeout_ms before bound).settled ≡ none)
        × (is_clean r ≡ true)
        × (any shows_hello before ≡ true)
  unfolding bound
  run-resolved es h =
      let p = run-IsPassed es bound refl h in
      (p.before, p.after, p.result, p.split, p.open_before, p.clean, p.hello)

  -- A run that goes well is passed: where no request and no connection has failed, the time limit
  -- has not passed, and a chunk that does not also hold the prompt has shown the expected text, a
  -- result with exit code 0 and without a timeout resolves the promise, whatever comes behind it.
  pub run-passes :
      (es more : List Event) (r : ResultEvent)
      → all is_quiet es ≡ true
      → any plainly_hello es ≡ true
      → is_clean r ≡ true
      → (run channel e2e_timeout_ms (es ++ Event.result r ∷ more) bound).settled
        ≡ some Outcome.resolved
  unfolding run bound
  run-passes es more r quiet hello clean = rw (run-append es (Event.result r ∷ more) bound) (
      run-settled more _ Outcome.resolved (
        handle-result channel e2e_timeout_ms r (run channel e2e_timeout_ms es bound)
          (run_quiet es bound quiet refl) (run_hello es bound hello) clean))
