-- ===== src/Api/Auth.antt =====
-- apps/api/src/auth.ts: the bearer token of every /v1 route. SHA-256 is a parameter, its digest as a
-- text.
use Prim.Native.String.{◌++◌}
use mathlib.Core.Bool.{not}
use mathlib.Core.Option.{some-injective}
use code_runner.Prelude.{
  String, Bool, ◌||◌, Option, none, some, ◌==◌, ◌≡◌, ◌≢◌, ◌⊎◌, sym, ap, ◌∙◌, refl, arith, eq_iff,
  drop_prefix, or_default, if◌then◌else◌, Bool-cases, inl, inr,
}
use code_runner.Prelude.Json.{error_body}
use code_runner.Prelude.Dropping.{drop_prefix-append, drop_prefix-eq}
use code_runner.Prelude.State.{State, pure}
use code_runner.Api.Http.{Response}

abbrev pub unauthorized : Response
unauthorized = record { status = 401; body = error_body "unauthorized" }

-- the token of the header, empty if there is none
unfoldable pub bearer_token : Option String → String
bearer_token header = or_default (drop_prefix "Bearer " (or_default header "")) ""

module _ (sha256 : String → String) where
  unfoldable pub safe_equal : String → String → Bool
  safe_equal a b = sha256 a == sha256 b

  -- Runs the handler behind it, or answers 401.
  unfoldable pub bearer_auth {ℓ} :
      {S : Type ℓ}
      → (expected : String) (header : Option String) → State S Response
      → State S Response
  unfolding bearer_token safe_equal
  bearer_auth expected header next =
      if bearer_token header == "" || not (safe_equal (bearer_token header) expected)
      then pure unauthorized
      else next

module _ (sha256 : String → String) (expected : String) where
  dropped :
      (h t : String) → drop_prefix "Bearer " h ≡ some t → h ≡ "Bearer " ++ expected → t ≡ expected
  dropped h t e same =
      some-injective t expected
        (sym e ∙ ap (drop_prefix "Bearer ") same ∙ drop_prefix-append "Bearer " expected)

  -- With a token that is not empty, and no other text of its digest: the header "Bearer <token>"
  -- lets the request through to the handler, and any other header, or none, is answered by 401 with
  -- nothing changed.
  pub bearer_auth_exact {ℓ} :
      {S : Type ℓ} (header : Option String) (next : State S Response)
      → expected ≢ ""
      → ((s : String) → sha256 s ≡ sha256 expected → s ≡ expected)
      → ((header ≡ some ("Bearer " ++ expected)) × (bearer_auth sha256 expected header next ≡ next))
        ⊎ ((header ≢ some ("Bearer " ++ expected))
            × (bearer_auth sha256 expected header next ≡ pure unauthorized))
  unfolding bearer_auth drop_prefix
  bearer_auth_exact none next given apart = inr (λ e. cc, refl)
  bearer_auth_exact {S} (some h) next given apart = go (drop_prefix "Bearer " h) refl
    where
      go :
          (o : Option String)
          → drop_prefix "Bearer " h ≡ o
          → ((some h ≡ some ("Bearer " ++ expected))
              × (bearer_auth sha256 expected (some h) next ≡ next))
            ⊎ ((some h ≢ some ("Bearer " ++ expected))
                × (bearer_auth sha256 expected (some h) next ≡ pure unauthorized))
      go none e = inr (
        λ same. cc (e, drop_prefix-append "Bearer " expected, some-injective h _ same),
        rw e refl,
      )
      go (some t) e = elim (Bool-cases (t == "" || not (sha256 t == sha256 expected))) [
        | inl bad ↦ inr (
          λ same.
              let whole = dropped h t e (some-injective h _ same) in
              ground
                (arith, whole, eq_iff t "", eq_iff (sha256 t) (sha256 expected), ap sha256 whole),
          rw e (rw bad refl),
        )
        | inr good ↦
            let whole : t ≡ expected =
              apart t (ground (arith, eq_iff (sha256 t) (sha256 expected))) in
            inl (
              ap some (drop_prefix-eq "Bearer " h t e ∙ ap (λ z. "Bearer " ++ z) whole),
              rw e (rw good refl),
            )
      ]
