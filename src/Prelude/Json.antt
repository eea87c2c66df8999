-- ===== src/Prelude/Json.antt =====
-- JSON values.
use Prim.Native.Nat.{ℕ}
use Prim.Native.String.{String}
use text.Mathlib.Text.{◌==◌}
use code_runner.Prelude.Tests.{eqb, or_default, if◌then◌else◌}
use mathlib.Core.Bool.{Bool, true, false, not}
use mathlib.Core.Option
use mathlib.Core.Option.{Option, none, some}
use mathlib.Core.List.{List, [], ◌∷◌}

mutual
  pub data Json : Type 0 where
    null : Json
    bool : Bool → Json
    num : ℕ → Json
    -- `negative n` is -(n + 1)
    negative : ℕ → Json
    str : String → Json
    arr : Items → Json
    obj : Fields → Json

  pub data Items : Type 0 where
    nil : Items
    cons : Json → Items → Items

  pub data Fields : Type 0 where
    end : Fields
    field : String → Json → Fields → Fields

unfoldable pub array {ℓ} : {A : Type ℓ} → (A → Json) → List A → Items
array f [] = nil
array f (x ∷ xs) = cons (f x) (array f xs)

-- A field whose value is `undefined` is left out.
abbrev pub given : String → Option Json → Fields → Fields
given k none rest = rest
given k (some v) rest = field k v rest

abbrev pub optional {ℓ} : {A : Type ℓ} → String → (A → Json) → Option A → Fields → Fields
optional k f o rest = given k (Option.map f o) rest

abbrev pub error_body : String → Json
error_body message = obj (field "error" (str message) end)

-- the value of a field; of two with one name the last
unfoldable pub lookup : String → Fields → Option Json
lookup name end = none
lookup name (field k v rest) =
    let later = lookup name rest in if k == name then some (or_default later v) else later

-- `v.name`, where `v` may be undefined
unfoldable pub member : String → Option Json → Option Json
unfolding lookup
member name (some (obj fields)) = lookup name fields
member name _ = none

-- whether a value passes a test of truthiness
abbrev pub truthy : Json → Bool
truthy null = false
truthy (bool b) = b
truthy (num n) = not (eqb n 0)
truthy (str s) = not (s == "")
truthy _ = true

-- `v ?? ""`
abbrev pub or_empty : Option Json → Json
or_empty none = str ""
or_empty (some null) = str ""
or_empty (some v) = v
