-- ===== src/Prelude/Endings.antt =====
-- The last character of a text: texts that end differently are different.
use Prim.Native.Nat.{ℕ}
use Prim.Native.Char.{Char, code}
use Prim.Native.String.{String, ◌++◌}
use mathlib.Core.Path.{◌≡◌, ap, ◌∙◌, sym}
use mathlib.Core.Logic.{◌≢◌}
use text.Mathlib.TextLemmas.{nil-append, cons-append, append_assoc}

last_from : ℕ → String → ℕ
last_from d String.[] = d
last_from d (String.◌∷◌ c s) = last_from (code c) s

unfoldable pub last_code : String → ℕ
unfolding last_from
last_code s = last_from 0 s

last_from-append :
    (d : ℕ) (s t : String) (c : Char)
    → last_from d (s ++ (String.◌∷◌ c t)) ≡ last_from 0 (String.◌∷◌ c t)
unfolding last_from
last_from-append d String.[] t c = rw nil-append
last_from-append d (String.◌∷◌ e s) t c = rw cons-append (last_from-append (code e) s t c)

pub last_code-append :
    (s t : String) (c : Char) → last_code (s ++ (String.◌∷◌ c t)) ≡ last_code (String.◌∷◌ c t)
unfolding last_code
last_code-append s t c = last_from-append 0 s t c

pub ne_of_last_code : {s t : String} → last_code s ≢ last_code t → s ≢ t
ne_of_last_code h e = h (ap last_code e)

-- `p${s}c…`
pub last_code-template :
    (p s t : String) (c : Char)
    → last_code (p ++ (s ++ (String.◌∷◌ c t))) ≡ last_code (String.◌∷◌ c t)
last_code-template p s t c =
    ap last_code (sym (append_assoc p s (String.◌∷◌ c t))) ∙ last_code-append (p ++ s) t c
