-- ===== src/Schemas/Zod.antt =====
-- What packages/contract/gen/ts/schemas.ts uses of zod: the schemas that it builds, as data, and what
-- zod documents of `safeParse` on them. `safeParse` itself is a parameter wherever it is used, `none`
-- for a value that it refuses; a strict object is parsed property by property, in the schema's order.
pub mod Rows
use mathlib.Core.Option
use code_runner.Prelude.{
  ℕ, zero, suc, String, Bool, true, false, ◌&&◌, ◌||◌, Option, none, some, List, ◌≡◌, refl, ◌==◌,
  any, leb, is_some, if◌then◌else◌,
}
use code_runner.Prelude.Json.{
  Json, null, bool, num, str, arr, obj, Items, nil, cons, Fields, end, field, given,
}
use code_runner.Prelude.Json.{lookup}
use code_runner.Api.Files.{utf16_length}

pub data Need : Type 0 where
  required optional : Need
  default : Json → Need

mutual
  pub data Schema : Type 0 where
    -- z.string() with .min() and .max()
    string : ℕ → Option ℕ → Schema
    -- z.string().regex(), the expression as a test
    pattern : (String → Bool) → Schema
    -- z.number().int() with .gte()
    integer : Option ℕ → Schema
    boolean : Schema
    -- z.enum() and z.literal()
    one_of : List String → Schema
    -- z.array() with .min()
    array : Schema → ℕ → Schema
    -- z.union([s, z.null()])
    nullable : Schema → Schema
    -- z.object().strict()
    object : Shape → Schema

  pub data Shape : Type 0 where
    no_more : Shape
    property : String → Need → Schema → Shape → Shape

-- what is parsed if the test holds
abbrev pub verdict {ℓ} : {A : Type ℓ} → Bool → A → Option A
verdict fits a = if fits then some a else none

pub verdict-some {ℓ} : {A : Type ℓ} (b : Bool) (a c : A) → verdict b a ≡ some c → b ≡ true
verdict-some true a c h = refl
verdict-some false a c h = cc

abbrev pub at_most : ℕ → Option ℕ → Bool
at_most n none = true
at_most n (some hi) = leb n hi

abbrev pub at_least : Option ℕ → ℕ → Bool
at_least none n = true
at_least (some lo) n = leb lo n

abbrev pub has_length : ℕ → Option ℕ → String → Bool
has_length lo hi s = leb lo (utf16_length s) && at_most (utf16_length s) hi

abbrev pub one_named : String → List String → Bool
one_named s names = any (λ name. name == s) names

abbrev pub count : Items → ℕ
count nil = zero
count (cons v items) = suc (count items)

abbrev pub takes_null : Schema → Bool
takes_null (nullable s) = true
takes_null _ = false

abbrev pub only_null : Json → Option Json
only_null null = some null
only_null _ = none

abbrev pub or_else : Option Json → Option Json → Option Json
or_else (some v) later = some v
or_else none later = later

abbrev pub names_key : String → Shape → Bool
names_key key no_more = false
names_key key (property k need s shape) = k == key || names_key key shape

-- `.strict()`: no key that the shape does not name
abbrev pub only_known : Shape → Fields → Bool
only_known shape end = true
only_known shape (field k v fields) = names_key k shape && only_known shape fields

abbrev pub all_parsed : Option Json → Option Items → Option Items
all_parsed (some v) (some items) = some (cons v items)
all_parsed _ _ = none

abbrev pub with_property : String → Option (Option Json) → Option Fields → Option Fields
with_property k (some v) (some fields) = some (given k v fields)
with_property k _ _ = none

-- the value of one property, which may be missing from the input and from the output
abbrev pub parse_need : (Json → Option Json) → Need → Option Json → Option (Option Json)
parse_need parse required none = none
parse_need parse optional none = some none
parse_need parse (default v) none = some (some v)
parse_need parse _ (some v) = Option.map some (parse v)

module _ (parse : Schema → Json → Option Json) where
  abbrev pub parse_items : Schema → Items → Option Items
  parse_items s nil = some nil
  parse_items s (cons v items) = all_parsed (parse s v) (parse_items s items)

  abbrev pub parse_shape : Shape → Fields → Option Fields
  parse_shape no_more fields = some end
  parse_shape (property k need s shape) fields =
      with_property k (parse_need (parse s) need (lookup k fields)) (parse_shape shape fields)

  -- What zod documents of `safeParse`.
  pub record IsZod : Type 0 where
    pub string_law :
        (lo : ℕ) (hi : Option ℕ) (s : String)
        → parse (string lo hi) (str s) ≡ verdict (has_length lo hi s) (str s)
    pub pattern_law :
        (test : String → Bool) (s : String)
        → parse (pattern test) (str s) ≡ verdict (test s) (str s)
    pub integer_law :
        (lo : Option ℕ) (n : ℕ) → parse (integer lo) (num n) ≡ verdict (at_least lo n) (num n)
    pub boolean_law : (b : Bool) → parse boolean (bool b) ≡ some (bool b)
    pub one_of_law :
        (names : List String) (s : String)
        → parse (one_of names) (str s) ≡ verdict (one_named s names) (str s)
    pub array_law :
        (s : Schema) (least : ℕ) (items : Items)
        → parse (array s least) (arr items)
          ≡ (if leb least (count items) then Option.map arr (parse_items s items) else none)
    pub nullable_law :
        (s : Schema) (v : Json) → parse (nullable s) v ≡ or_else (parse s v) (only_null v)
    pub null_law : (s : Schema) → takes_null s ≡ false → parse s null ≡ none
    pub object_law :
        (shape : Shape) (fields : Fields)
        → parse (object shape) (obj fields)
          ≡ (if only_known shape fields then Option.map obj (parse_shape shape fields) else none)
