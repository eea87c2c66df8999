-- ===== src/Prelude/Splitting.antt =====
-- Splitting a text at a separator undoes joining by it.
use Prim.Native.Nat.{ℕ}
use Prim.Native.Char.{Char, code}
use Prim.Native.String.{String, ◌++◌}
use mathlib.Core.Path.{◌≡◌, ap, ◌∙◌}
use mathlib.Core.Logic.{◌≢◌}
use mathlib.Core.List.{List, [], ◌∷◌}
use native.Mathlib.Omega.{arith}
use text.Mathlib.TextLemmas.{nil-append, cons-append, append-nil, append_assoc}
use code_runner.Prelude.Lists.{All}
use code_runner.Prelude.Texts.{split_from, split, join}

abbrev pub LacksSeparator : ℕ → String → Type 0
LacksSeparator sep String.[] = Unit
LacksSeparator sep (String.◌∷◌ c s) = (code c ≢ sep) × LacksSeparator sep s

module _ (sep : ℕ) where
  LacksSeparator-push :
      (s : String) (c : Char)
      → LacksSeparator sep s
      → code c ≢ sep
      → LacksSeparator sep (s ++ (String.◌∷◌ c String.[]))
  LacksSeparator-push String.[] c _ p = rw nil-append (p, tt)
  LacksSeparator-push (String.◌∷◌ d s) c (q, h) p = rw cons-append (q, LacksSeparator-push s c h p)

  split_from-LacksSeparator :
      (cur s : String) → LacksSeparator sep cur → All (LacksSeparator sep) (split_from sep cur s)
  unfolding split_from
  split_from-LacksSeparator cur String.[] h = (h, tt)
  split_from-LacksSeparator cur (String.◌∷◌ c s) h = ground (
    arith,
    split_from-LacksSeparator "" s tt,
    split_from-LacksSeparator (cur ++ (String.◌∷◌ c String.[])) s,
    LacksSeparator-push cur c h,
  )

  pub split-LacksSeparator : (s : String) → All (LacksSeparator sep) (split sep s)
  unfolding split
  split-LacksSeparator s = split_from-LacksSeparator "" s tt

  push-append :
      (cur s : String) (c : Char) → (cur ++ (String.◌∷◌ c String.[])) ++ s ≡ cur ++ (String.◌∷◌ c s)
  push-append cur s c =
      append_assoc cur _ s
      ∙ ap (λ t. cur ++ t) (cons-append c String.[] s ∙ ap (λ t. String.◌∷◌ c t) (nil-append s))

  split_from_whole :
      (cur s : String) → LacksSeparator sep s → split_from sep cur s ≡ (cur ++ s) ∷ []
  unfolding split_from
  split_from_whole cur String.[] h = rw append-nil
  split_from_whole cur (String.◌∷◌ c s) (p, h) =
      ground (arith, split_from_whole (cur ++ (String.◌∷◌ c String.[])) s h, push-append cur s c)

  split_from_closed :
      (cur s t : String) (c : Char)
      → LacksSeparator sep s
      → code c ≡ sep
      → split_from sep cur (s ++ (String.◌∷◌ c t)) ≡ (cur ++ s) ∷ split_from sep "" t
  unfolding split_from
  split_from_closed cur String.[] t c h e = rw (nil-append, append-nil) (ground arith)
  split_from_closed cur (String.◌∷◌ d s) t c (p, h) e = rw cons-append (
      ground
        (arith, split_from_closed (cur ++ (String.◌∷◌ d String.[])) s t c h e, push-append cur s d))

  -- The separator is the text of one character.
  pub split-join :
      (c : Char) (x : String) (xs : List String)
      → code c ≡ sep
      → All (LacksSeparator sep) (x ∷ xs)
      → split sep (join (String.◌∷◌ c String.[]) (x ∷ xs)) ≡ x ∷ xs
  unfolding split join
  split-join c x [] e (h, _) = split_from_whole "" x h ∙ ap (λ t. t ∷ []) (nil-append x)
  split-join c x (y ∷ ys) e (h, hs) =
      rw (cons-append, nil-append)
        (rw (split_from_closed "" x (join (String.◌∷◌ c String.[]) (y ∷ ys)) c h e)
          (rw nil-append (ap (◌∷◌ x) (split-join c y ys e hs))))

  pub split-separator :
      (c : Char) (s : String) → code c ≡ sep → split sep (String.◌∷◌ c s) ≡ "" ∷ split sep s
  unfolding split split_from
  split-separator c s e = ground arith
