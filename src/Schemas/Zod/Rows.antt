-- ===== src/Schemas/Zod/Rows.antt =====
-- An object that is written property by property, beside the schema that names the same properties:
-- it is parsed as its properties are. An array likewise.
use mathlib.Core.Option
use code_runner.Prelude.{
  ℕ, suc, String, Bool, true, false, not, ◌&&◌, Option, none, some, List, [], ◌∷◌, ◌≡◌, refl, ap,
  ◌∙◌, ◌==◌, All, all, length, leb, arith, eq_iff,
}
use code_runner.Prelude.Json
use code_runner.Prelude.Json.{Json, arr, obj, Items, nil, cons, Fields, end, field, given}
use code_runner.Prelude.Json.{lookup}
use code_runner.Schemas.Zod.{
  Schema, Shape, Need, no_more, property, array, object, verdict, one_named, count, names_key,
  only_known, with_property, parse_need, parse_items, parse_shape, IsZod,
}

-- A property: its schema, the value that the object has for it, and what the parse makes of it.
pub record Row : Type 0 where
  pub key : String
  pub need : Need
  pub schema : Schema
  pub value : Option Json
  pub fits : Bool
  pub out : Option Json

-- the judgements of a row and of those below it
infixr 6 ◌&◌
abbrev pub ◌&◌ {ℓ κ} : {P : Type ℓ} {Q : Type κ} → P → Q → P × Q
p & q = (p, q)

abbrev pub keys : List Row → List String
keys [] = []
keys (r ∷ rs) = r.key ∷ keys rs

abbrev pub distinct : List String → Bool
distinct [] = true
distinct (k ∷ ks) = not (one_named k ks) && distinct ks

abbrev pub shape_of : List Row → Shape
shape_of [] = no_more
shape_of (r ∷ rs) = property r.key r.need r.schema (shape_of rs)

abbrev pub fields_of : List Row → Fields
fields_of [] = end
fields_of (r ∷ rs) = given r.key r.value (fields_of rs)

abbrev pub outs_of : List Row → Fields
outs_of [] = end
outs_of (r ∷ rs) = given r.key r.out (outs_of rs)

abbrev pub fit : List Row → Bool
fit [] = true
fit (r ∷ rs) = r.fits && fit rs

lookup-given_other :
    (j k : String) (v : Option Json) (fields : Fields)
    → (j == k) ≡ false
    → lookup k (given j v fields) ≡ lookup k fields
unfolding lookup
lookup-given_other j k v fields h = ground arith

lookup-given_self :
    (k : String) (v : Option Json) (fields : Fields)
    → lookup k fields ≡ none
    → lookup k (given k v fields) ≡ v
unfolding lookup
lookup-given_self k none fields h = h
lookup-given_self k (some v) fields h = ground (arith, eq_iff k k)

lookup-fields_none :
    (k : String) (rs : List Row) → one_named k (keys rs) ≡ false → lookup k (fields_of rs) ≡ none
unfolding lookup
lookup-fields_none k [] h = refl
lookup-fields_none k (r ∷ rs) h =
    lookup-given_other r.key k r.value (fields_of rs) (ground arith)
    ∙ lookup-fields_none k rs (ground arith)

-- the object has the value of each property under its key
abbrev Holds : Fields → List Row → Type 0
Holds fields rs = All (λ r. lookup r.key fields ≡ r.value) rs

Holds-given :
    (k : String) (v : Option Json) (fields : Fields) (rs : List Row)
    → one_named k (keys rs) ≡ false
    → Holds fields rs
    → Holds (given k v fields) rs
Holds-given k v fields [] h held = tt
Holds-given k v fields (r ∷ rs) h held = (
  lookup-given_other k r.key v fields (ground (arith, eq_iff k r.key, eq_iff r.key k)) ∙ held.0,
  Holds-given k v fields rs (ground arith) held.1,
)

fields_of-Holds : (rs : List Row) → distinct (keys rs) ≡ true → Holds (fields_of rs) rs
fields_of-Holds [] h = tt
fields_of-Holds (r ∷ rs) h = (
  lookup-given_self r.key r.value _ (lookup-fields_none r.key rs (ground arith)),
  Holds-given r.key r.value _ rs (ground arith) (fields_of-Holds rs (ground arith)),
)

abbrev Named : Shape → List Row → Type 0
Named shape rs = All (λ r. names_key r.key shape ≡ true) rs

Named-property :
    (k : String) (need : Need) (s : Schema) (shape : Shape) (rs : List Row)
    → Named shape rs
    → Named (property k need s shape) rs
Named-property k need s shape [] h = tt
Named-property k need s shape (r ∷ rs) h =
    (ground (arith, h.0), Named-property k need s shape rs h.1)

shape_of-Named : (rs : List Row) → Named (shape_of rs) rs
shape_of-Named [] = tt
shape_of-Named (r ∷ rs) = (
  ground (arith, eq_iff r.key r.key),
  Named-property r.key r.need r.schema _ rs (shape_of-Named rs),
)

only_known-fields_of :
    (shape : Shape) (rs : List Row) → Named shape rs → only_known shape (fields_of rs) ≡ true
only_known-fields_of shape [] h = refl
only_known-fields_of shape (r ∷ rs) h = ground (arith, h.0, only_known-fields_of shape rs h.1)

with_property-verdict :
    (k : String) (a : Bool) (v : Option Json) (b : Bool) (fields : Fields)
    → with_property k (verdict a v) (verdict b fields) ≡ verdict (a && b) (given k v fields)
with_property-verdict k true v true fields = refl
with_property-verdict k true v false fields = refl
with_property-verdict k false v b fields = refl

map-verdict {ℓ κ} :
    {A : Type ℓ} {B : Type κ} (f : A → B) (fits : Bool) (a : A)
    → Option.map f (verdict fits a) ≡ verdict fits (f a)
map-verdict f true a = refl
map-verdict f false a = refl

count-array {ℓ} :
    {A : Type ℓ} (put : A → Json) (xs : List A) → count (Json.array put xs) ≡ length xs
unfolding Json.array
count-array put [] = refl
count-array put (x ∷ xs) = ap suc (count-array put xs)

module _ {ℓ} {A : Type ℓ} (parse : Schema → Json → Option Json) (s : Schema) (put out : A → Json)
    (fits : A → Bool) (each : (x : A) → parse s (put x) ≡ verdict (fits x) (out x)) where
  parse_items-array :
      (xs : List A)
      → parse_items parse s (Json.array put xs) ≡ verdict (all fits xs) (Json.array out xs)
  unfolding Json.array
  parse_items-array [] = refl
  parse_items-array (x ∷ xs) = rw (each x, parse_items-array xs) (ground arith)

module _ (parse : Schema → Json → Option Json) (zod : IsZod parse) where
  abbrev pub Judged : Row → Type 0
  Judged r = parse_need (parse r.schema) r.need r.value ≡ verdict r.fits r.out

  parse_shape_rows :
      (fields : Fields) (rs : List Row)
      → Holds fields rs
      → All Judged rs
      → parse_shape parse (shape_of rs) fields ≡ verdict (fit rs) (outs_of rs)
  parse_shape_rows fields [] held judged = refl
  parse_shape_rows fields (r ∷ rs) held judged =
      rw (held.0, judged.0, parse_shape_rows fields rs held.1 judged.1)
        (with_property-verdict r.key r.fits r.out (fit rs) (outs_of rs))

  pub parse_rows :
      (rs : List Row)
      → distinct (keys rs) ≡ true
      → All Judged rs
      → parse (object (shape_of rs)) (obj (fields_of rs)) ≡ verdict (fit rs) (obj (outs_of rs))
  parse_rows rs h judged =
      zod.object_law (shape_of rs) (fields_of rs)
      ∙ rw
          (
            only_known-fields_of (shape_of rs) rs (shape_of-Named rs),
            parse_shape_rows (fields_of rs) rs (fields_of-Holds rs h) judged,
          )
          (map-verdict obj (fit rs) (outs_of rs))

  pub parse_array {ℓ} :
      {A : Type ℓ} (s : Schema) (least : ℕ) (put out : A → Json) (fits : A → Bool) (xs : List A)
      → ((x : A) → parse s (put x) ≡ verdict (fits x) (out x))
      → parse (array s least) (arr (Json.array put xs))
        ≡ verdict (leb least (length xs) && all fits xs) (arr (Json.array out xs))
  parse_array s least put out fits xs h =
      zod.array_law s least (Json.array put xs)
      ∙ rw (count-array put xs, parse_items-array parse s put out fits h xs) (ground arith)
