-- ===== src/Stub/Posts.antt =====
-- What the end-to-end driver posts, whatever happens and in whatever order.
use code_runner.Prelude.{
  ℕ, suc, ◌+◌, String, Bool, true, false, ◌||◌, List, [], ◌∷◌, ◌++◌, ◌≡◌, refl, ap, ◌⊎◌, inl, inr,
  arith, any, includes, if◌then◌else◌,
}
use mathlib.Core.List.{append-nil}
use code_runner.Prelude.Result.{ok}
use code_runner.Stub.{Post, Suspended, Driver, Event, handle, run, bound}

abbrev pub confirms : Event → Bool
confirms Event.subscription_succeeded = true
confirms _ = false

abbrev pub prompts : Event → Bool
prompts (Event.stdout chunk) = includes chunk "name?"
prompts _ = false

abbrev pub accepts_stdin : Event → Bool
accepts_stdin (Event.stdin_answered (ok answer)) = true
accepts_stdin _ = false

abbrev pub starts : List Post → ℕ
starts [] = 0
starts (Post.start ∷ posts) = suc (starts posts)
starts (_ ∷ posts) = starts posts

-- the posts about stdin
abbrev pub inputs : List Post → List Post
inputs [] = []
inputs (Post.start ∷ posts) = inputs posts
inputs (post ∷ posts) = post ∷ inputs posts

starts-append : (xs ys : List Post) → starts (xs ++ ys) ≡ starts xs + starts ys
starts-append [] ys = omega arith
starts-append (Post.start ∷ xs) ys = omega (arith, starts-append xs ys)
starts-append (Post.stdin ∷ xs) ys = starts-append xs ys
starts-append (Post.stdin_close ∷ xs) ys = starts-append xs ys

inputs-append : (xs ys : List Post) → inputs (xs ++ ys) ≡ inputs xs ++ inputs ys
inputs-append [] ys = refl
inputs-append (Post.start ∷ xs) ys = inputs-append xs ys
inputs-append (Post.stdin ∷ xs) ys = ap (λ l. Post.stdin ∷ l) (inputs-append xs ys)
inputs-append (Post.stdin_close ∷ xs) ys = ap (λ l. Post.stdin_close ∷ l) (inputs-append xs ys)

-- the posts about stdin that the flags allow for
abbrev pub expected : Bool → Bool → List Post
expected stdin_sent close_sent =
    if stdin_sent then Post.stdin ∷ (if close_sent then Post.stdin_close ∷ [] else []) else []

-- the flags while the stdout handler awaits an answer
abbrev Awaits : Suspended → Bool → Bool → Type 0
Awaits Suspended.nowhere stdin_sent close_sent = Unit
Awaits (Suspended.at_stdin chunk) stdin_sent close_sent = (stdin_sent ≡ true) × (close_sent ≡ false)
Awaits (Suspended.at_close chunk) stdin_sent close_sent = (stdin_sent ≡ true) × (close_sent ≡ true)

record IsOrderly (s : Driver) : Type 0 where
  once : starts s.posts ≡ (if s.start_sent then 1 else 0)
  ordered : inputs s.posts ≡ expected s.stdin_sent s.close_sent
  later : s.close_sent ≡ true → s.stdin_sent ≡ true
  awaits : Awaits s.handler s.stdin_sent s.close_sent

module _ (channel : String) (e2e_timeout_ms : ℕ) where
  handle-IsOrderly :
      (e : Event) (s : Driver) → IsOrderly s → IsOrderly (handle channel e2e_timeout_ms e s)
  unfolding handle
  handle-IsOrderly e s h = ground (
    arith,
    h,
    starts-append s.posts (Post.start ∷ []),
    starts-append s.posts (Post.stdin ∷ []),
    starts-append s.posts (Post.stdin_close ∷ []),
    inputs-append s.posts (Post.start ∷ []),
    inputs-append s.posts (Post.stdin ∷ []),
    inputs-append s.posts (Post.stdin_close ∷ []),
    append-nil (inputs s.posts),
  )

  handle-start_sent :
      (e : Event) (s : Driver)
      → (handle channel e2e_timeout_ms e s).start_sent ≡ s.start_sent || confirms e
  unfolding handle
  handle-start_sent e s = ground arith

  handle-stdin_sent :
      (e : Event) (s : Driver)
      → (handle channel e2e_timeout_ms e s).stdin_sent ≡ s.stdin_sent || prompts e
  unfolding handle
  handle-stdin_sent e s = ground arith

  handle-close_sent :
      (e : Event) (s : Driver)
      → (handle channel e2e_timeout_ms e s).close_sent ≡ true
      → (s.close_sent ≡ true) ⊎ (accepts_stdin e ≡ true)
  unfolding handle
  handle-close_sent e s h = ground arith

  run-IsOrderly :
      (es : List Event) (s : Driver) → IsOrderly s → IsOrderly (run channel e2e_timeout_ms es s)
  unfolding run
  run-IsOrderly [] s h = h
  run-IsOrderly (e ∷ es) s h =
      run-IsOrderly es (handle channel e2e_timeout_ms e s) (handle-IsOrderly e s h)

  run-start_sent :
      (es : List Event) (s : Driver)
      → (run channel e2e_timeout_ms es s).start_sent ≡ s.start_sent || any confirms es
  unfolding run
  run-start_sent [] s = ground arith
  run-start_sent (e ∷ es) s =
      ground (arith, run-start_sent es (handle channel e2e_timeout_ms e s), handle-start_sent e s)

  run-stdin_sent :
      (es : List Event) (s : Driver)
      → (run channel e2e_timeout_ms es s).stdin_sent ≡ s.stdin_sent || any prompts es
  unfolding run
  run-stdin_sent [] s = ground arith
  run-stdin_sent (e ∷ es) s =
      ground (arith, run-stdin_sent es (handle channel e2e_timeout_ms e s), handle-stdin_sent e s)

  run-close_sent :
      (es : List Event) (s : Driver)
      → (run channel e2e_timeout_ms es s).close_sent ≡ true
      → (s.close_sent ≡ true) ⊎ (any accepts_stdin es ≡ true)
  unfolding run
  run-close_sent [] s h = inl h
  run-close_sent (e ∷ es) s h = elim (run-close_sent es (handle channel e2e_timeout_ms e s) h) [
    | inl now ↦ ground (arith, handle-close_sent e s now)
    | inr after ↦ inr (ground arith)
  ]

  bound-IsOrderly : IsOrderly bound
  unfolding bound
  bound-IsOrderly = ground arith

  -- Whatever events come, and in whatever order: /start is posted once if the subscription has been
  -- confirmed, and not at all otherwise. Of the other two requests, the driver posts the one with
  -- the input exactly where a chunk of the output has held the prompt, once and first, and behind it
  -- at most one that closes the input, only where the former has been accepted.
  pub run-posts :
      (es : List Event)
      → let posts = (run channel e2e_timeout_ms es bound).posts in
        (starts posts ≡ (if any confirms es then 1 else 0))
        × ((inputs posts ≡ (if any prompts es then Post.stdin ∷ [] else []))
            ⊎ ((inputs posts ≡ Post.stdin ∷ Post.stdin_close ∷ [])
                × (any prompts es ≡ true)
                × (any accepts_stdin es ≡ true)))
  unfolding bound
  run-posts es =
      let h = run-IsOrderly es bound bound-IsOrderly in
      ground (
        arith,
        h.once,
        h.ordered,
        h.later,
        run-start_sent es bound,
        run-stdin_sent es bound,
        run-close_sent es bound,
      )
