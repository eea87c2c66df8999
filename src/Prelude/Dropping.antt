-- ===== src/Prelude/Dropping.antt =====
-- `drop_prefix` undoes putting a prefix in front.
use Prim.Native.Char.{code}
use Prim.Native.String.{String, ◌++◌}
use mathlib.Core.Path.{◌≡◌, ap, ap₂, ◌∙◌, sym}
use mathlib.Core.Option.{some}
use native.Mathlib.Omega.{arith}
use text.Mathlib.TextLemmas.{nil-append, cons-append}
use text.Mathlib.TextEquality.{Char-path}
use code_runner.Prelude.Texts.{drop_prefix}

pub drop_prefix-append : (p s : String) → drop_prefix p (p ++ s) ≡ some s
unfolding drop_prefix
drop_prefix-append String.[] s = ap some (nil-append s)
drop_prefix-append (String.◌∷◌ c p) s = rw cons-append (ground (arith, drop_prefix-append p s))

pub drop_prefix-eq : (p s t : String) → drop_prefix p s ≡ some t → s ≡ p ++ t
unfolding drop_prefix
drop_prefix-eq String.[] s t h = ground (arith, nil-append t)
drop_prefix-eq (String.◌∷◌ c p) String.[] t h = cc
drop_prefix-eq (String.◌∷◌ c p) (String.◌∷◌ d s) t h =
    let same : code c ≡ code d = ground arith in
    let rest : drop_prefix p s ≡ some t = ground arith in
    ap₂ String.◌∷◌ (sym (Char-path c d same)) (drop_prefix-eq p s t rest) ∙ sym (cons-append c p t)
