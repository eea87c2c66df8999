-- ===== src/Prelude/Texts.antt =====
-- What the program uses of JavaScript's strings: `split`, `join`, `toLowerCase`, `String(n)` and
-- removing a literal prefix. A text is a list of characters; `+` is `++`.
use Prim.Native.Nat.{ℕ, zero, suc, ◌+◌, ◌/◌, ◌%◌, ◌<◌}
use Prim.Native.Char.{code}
use Prim.Native.String.{String, [], ◌∷◌, ◌++◌, slice}
use mathlib.Core.Logic.{dite}
use mathlib.Core.Option.{Option, none, some}
use mathlib.Core.List.{List}
use mathlib.Core.WellFounded.{Acc, WellFounded}
use native.Mathlib.Omega.{arith}
use native.Mathlib.Decide.{dec_lt}
use mathlib.Core.Bool.{Bool, ◌&&◌, ◌||◌}
use text.Mathlib.Text.{◌==◌}
use code_runner.Prelude.Tests.{eqb, is_some, if◌then◌else◌}

-- `s.split(c)`, the characters read so far in front
unfoldable pub split_from : ℕ → String → String → List String
split_from sep cur [] = List.◌∷◌ cur List.[]
split_from sep cur (c ∷ s) =
    let closed = List.◌∷◌ cur (split_from sep "" s) in
    let longer = split_from sep (cur ++ (c ∷ [])) s in if eqb (code c) sep then closed else longer

unfoldable pub split : ℕ → String → List String
unfolding split_from
split sep s = split_from sep "" s

unfoldable pub join : String → List String → String
join sep List.[] = ""
join sep (List.◌∷◌ x List.[]) = x
join sep (List.◌∷◌ x (List.◌∷◌ y ys)) = x ++ (sep ++ join sep (List.◌∷◌ y ys))

-- The text without the prefix, if it has it.
unfoldable pub drop_prefix : String → String → Option String
drop_prefix [] s = some s
drop_prefix (p ∷ ps) [] = none
drop_prefix (p ∷ ps) (c ∷ s) = if eqb (code p) (code c) then drop_prefix ps s else none

-- `s.includes(part)`
unfoldable pub includes : String → String → Bool
unfolding drop_prefix
includes [] part = part == ""
includes (c ∷ s) part = is_some (drop_prefix part (c ∷ s)) || includes s part

-- `s.replace(/\/+$/, "")`
unfoldable pub trim_slashes : String → String
trim_slashes [] = ""
trim_slashes (c ∷ s) =
    let rest = trim_slashes s in if rest == "" && eqb (code c) b'/' then "" else c ∷ rest

-- one decimal digit
unfoldable pub digit : ℕ → String
digit d = slice "0123456789" d (d + 1)

Acc-below : (k n : ℕ) → n < k → Acc ◌<◌ n
Acc-below zero n h = elim h [ ]
Acc-below (suc k) n h = Acc.intro n (λ m hm. Acc-below k m (omega arith))

unfoldable pub lt_wf : WellFounded ◌<◌
unfolding Acc-below
lt_wf = record { apply = λ n. Acc-below (suc n) n (omega arith) }

unfoldable pub show_acc : (n : ℕ) → Acc ◌<◌ n → String
show_acc n (Acc.intro _ smaller) =
    dite (dec_lt 9 n) (λ h. show_acc (n / 10) (smaller (n / 10) (omega arith)) ++ digit (n % 10))
      (λ _. digit n)

-- `String(n)`
unfoldable pub show : ℕ → String
unfolding show_acc digit lt_wf dec_lt
show n = show_acc n (lt_wf.apply n)
