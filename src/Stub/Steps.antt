-- ===== src/Stub/Steps.antt =====
-- What one event makes of the outcome of the end-to-end driver.
use code_runner.Prelude.{
  ℕ, String, Bool, true, false, not, ◌||◌, ◌&&◌, Option, none, some, is_some, ◌≡◌, ◌⊎◌, inl, inr,
  arith, includes, Option-cases,
}
use code_runner.Prelude.Result.{err}
use code_runner.Contract.{ResultEvent}
use code_runner.Stub.{Suspended, Driver, Event, Outcome, handle, is_hello, is_clean}

-- a chunk with the expected output
abbrev pub shows_hello : Event → Bool
shows_hello (Event.stdout chunk) = is_hello chunk
shows_hello _ = false

-- one that is not also taken for the prompt
abbrev pub plainly_hello : Event → Bool
plainly_hello (Event.stdout chunk) = is_hello chunk && not (includes chunk "name?")
plainly_hello _ = false

-- an event that leaves the outcome open
abbrev pub is_quiet : Event → Bool
is_quiet (Event.subscription_error e) = false
is_quiet (Event.connection_error e) = false
is_quiet (Event.start_answered (err e)) = false
is_quiet (Event.stdin_answered (err e)) = false
is_quiet (Event.result r) = false
is_quiet Event.timeout = false
is_quiet _ = true

abbrev pub result_of : Event → Option ResultEvent
result_of (Event.result r) = some r
result_of _ = none

-- the expected output, seen or in the chunk that is put off
abbrev pub held_hello : Suspended → Bool
held_hello Suspended.nowhere = false
held_hello (Suspended.at_stdin chunk) = is_hello chunk
held_hello (Suspended.at_close chunk) = is_hello chunk

abbrev pub seen : Driver → Bool
seen s = s.saw_hello_world || held_hello s.handler

module _ (channel : String) (e2e_timeout_ms : ℕ) where
  pub handle-settled :
      (e : Event) (s : Driver) (o : Outcome)
      → s.settled ≡ some o
      → (handle channel e2e_timeout_ms e s).settled ≡ some o
  unfolding handle
  handle-settled e s o h = ground arith

  pub handle-timer :
      (e : Event) (s : Driver)
      → (s.timer_set ≡ true) ⊎ (is_some s.settled ≡ true)
      → ((handle channel e2e_timeout_ms e s).timer_set ≡ true)
        ⊎ (is_some (handle channel e2e_timeout_ms e s).settled ≡ true)
  unfolding handle
  handle-timer e s h = ground arith

  pub timeout-settles :
      (s : Driver)
      → (s.timer_set ≡ true) ⊎ (is_some s.settled ≡ true)
      → is_some (handle channel e2e_timeout_ms Event.timeout s).settled ≡ true
  unfolding handle
  timeout-settles s h = ground arith

  pub handle-seen :
      (e : Event) (s : Driver)
      → seen (handle channel e2e_timeout_ms e s) ≡ true
      → seen s || shows_hello e ≡ true
  unfolding handle
  handle-seen e s h = ground arith

  pub handle-resolved :
      (e : Event) (s : Driver)
      → s.settled ≡ none
      → (handle channel e2e_timeout_ms e s).settled ≡ some Outcome.resolved
      → (r : ResultEvent) × (e ≡ Event.result r) × (is_clean r ≡ true) × (s.saw_hello_world ≡ true)
  unfolding handle
  handle-resolved e s h o = elim (Option-cases (result_of e)) [
    | inl other ↦ absurd (ground arith)
    | inr (r, eq) ↦ (r, ground arith, ground arith, ground arith)
  ]

  pub handle_quiet :
      (e : Event) (s : Driver)
      → is_quiet e ≡ true
      → s.settled ≡ none
      → (handle channel e2e_timeout_ms e s).settled ≡ none
  unfolding handle
  handle_quiet e s q h = ground arith

  pub handle_hello :
      (e : Event) (s : Driver)
      → s.saw_hello_world || plainly_hello e ≡ true
      → (handle channel e2e_timeout_ms e s).saw_hello_world ≡ true
  unfolding handle
  handle_hello e s h = ground arith

  pub handle-result :
      (r : ResultEvent) (s : Driver)
      → s.settled ≡ none
      → s.saw_hello_world ≡ true
      → is_clean r ≡ true
      → (handle channel e2e_timeout_ms (Event.result r) s).settled ≡ some Outcome.resolved
  unfolding handle
  handle-result r s h saw clean = ground arith
