-- ===== src/Schemas/Values.antt =====
-- What the parse makes of a property, of limits and of a file.
use code_runner.Prelude.{
  ℕ, String, Bool, true, Option, none, some, List, [], ◌∷◌, ◌≡◌, refl, ap, ◌∙◌, all, leb, length,
  arith,
}
use mathlib.Core.Option
use code_runner.Prelude.Json.{Json, null, num, str}
use code_runner.Contract.{
  Limits, LimitsOverride, FileInput, Encoding, utf8, base64, file_json, limits_json, strings,
  or_null, encoding_name,
}
use code_runner.Api.Files.{ref_re}
use code_runner.Schemas.{limits_schema, limits_override_schema, file_input_schema, text}
use code_runner.Schemas.Zod.{
  Schema, Need, pattern, integer, array, nullable, verdict, parse_need, IsZod,
}
use code_runner.Schemas.Zod.Rows.{◌&◌, parse_rows, parse_array}
use code_runner.Schemas.Fit.{
  if_given, limits_fit, override_fits, override_json, file_fits, or_utf8, with_encoding, positive,
  encoding_schema, limit_rows, override_rows, file_rows,
}

all-true {ℓ} : {A : Type ℓ} (xs : List A) → all (λ x. true) xs ≡ true
all-true [] = refl
all-true (x ∷ xs) = all-true xs

module _ (parse : Schema → Json → Option Json) (zod : IsZod parse) where
  pub given_value :
      (need : Need) (s : Schema) (v : Json) (fits : Bool)
      → parse s v ≡ verdict fits v
      → parse_need (parse s) need (some v) ≡ verdict fits (some v)
  given_value Need.required s v fits h = rw h (ground arith)
  given_value Need.optional s v fits h = rw h (ground arith)
  given_value (Need.default d) s v fits h = rw h (ground arith)

  pub optional_value {ℓ} :
      {A : Type ℓ} (s : Schema) (put : A → Json) (fits : A → Bool) (o : Option A)
      → ((a : A) → parse s (put a) ≡ verdict (fits a) (put a))
      → parse_need (parse s) Need.optional (Option.map put o)
        ≡ verdict (if_given fits o) (Option.map put o)
  optional_value s put fits none h = refl
  optional_value s put fits (some a) h = given_value Need.optional s (put a) (fits a) (h a)

  pub free_value {ℓ} :
      {A : Type ℓ} (s : Schema) (put : A → Json) (o : Option A)
      → ((a : A) → parse s (put a) ≡ some (put a))
      → parse_need (parse s) Need.optional (Option.map put o) ≡ some (Option.map put o)
  free_value s put none h = refl
  free_value s put (some a) h = rw (h a)

  pub text_fits : (s : String) → parse text (str s) ≡ some (str s)
  text_fits s = zod.string_law 0 none s ∙ ground arith

  pub number_fits : (n : ℕ) → parse (integer none) (num n) ≡ some (num n)
  number_fits n = zod.integer_law none n

  pub strings_fit :
      (least : ℕ) (xs : List String)
      → parse (array text least) (strings xs) ≡ verdict (leb least (length xs)) (strings xs)
  unfolding strings
  strings_fit least xs =
      parse_array parse zod text least str str (λ _. true) xs text_fits
      ∙ ground (arith, all-true xs)

  pub or_null_fits :
      (o : Option (List String)) → parse (nullable (array text 0)) (or_null o) ≡ some (or_null o)
  unfolding or_null
  or_null_fits none = zod.nullable_law _ null ∙ rw (zod.null_law (array text 0) refl)
  or_null_fits (some xs) = zod.nullable_law _ (strings xs) ∙ rw (strings_fit 0 xs) (ground arith)

  unrolled :
      (n : ℕ) (need : Need)
      → parse_need (parse positive) need (some (num n)) ≡ verdict (leb 1 n) (some (num n))
  unrolled n need = given_value need positive (num n) (leb 1 n) (zod.integer_law (some 1) n)

  pub parse-limits_json :
      (l : Limits) → parse limits_schema (limits_json l) ≡ verdict (limits_fit l) (limits_json l)
  unfolding limits_json
  parse-limits_json l = parse_rows parse zod (limit_rows l) refl (
      unrolled l.wall_time_ms Need.required
      & unrolled l.idle_ms Need.required
      & unrolled l.cpu_ms Need.required
      & unrolled l.memory_mb Need.required
      & unrolled l.pids Need.required
      & unrolled l.output_kb Need.required
      & unrolled l.max_artifacts (Need.default (num 20))
      & unrolled l.max_artifact_bytes (Need.default (num 4194304))
      & tt)

  overridden :
      (o : Option ℕ)
      → parse_need (parse positive) Need.optional (Option.map num o)
        ≡ verdict (if_given (leb 1) o) (Option.map num o)
  overridden o = optional_value positive num (leb 1) o (zod.integer_law (some 1))

  pub parse-override_json :
      (o : LimitsOverride)
      → parse limits_override_schema (override_json o) ≡ verdict (override_fits o) (override_json o)
  parse-override_json o = parse_rows parse zod (override_rows o) refl (
      overridden o.wall_time_ms
      & overridden o.idle_ms
      & overridden o.cpu_ms
      & overridden o.memory_mb
      & overridden o.pids
      & overridden o.output_kb
      & overridden o.max_artifacts
      & overridden o.max_artifact_bytes
      & tt)

  encoded :
      (o : Option Encoding)
      → parse_need
          (parse encoding_schema)
          (Need.default (str "utf8"))
          (Option.map (λ e. str (encoding_name e)) o)
        ≡ some (some (str (encoding_name (or_utf8 o))))
  unfolding encoding_name
  encoded none = refl
  encoded (some utf8) = rw (zod.one_of_law ("utf8" ∷ "base64" ∷ []) "utf8")
  encoded (some base64) = rw (zod.one_of_law ("utf8" ∷ "base64" ∷ []) "base64")

  -- A file is parsed to itself with its encoding, if its name and its ref fit.
  pub parse-file_json :
      (f : FileInput)
      → parse file_input_schema (file_json f) ≡ verdict (file_fits f) (file_json (with_encoding f))
  unfolding file_json
  parse-file_json f =
      parse_rows parse zod (file_rows f) refl (
        given_value Need.required _ (str f.name) _ (zod.string_law 1 (some 255) f.name)
        & free_value text str f.content text_fits
        & encoded f.encoding
        & optional_value (pattern ref_re) str ref_re f.ref (zod.pattern_law ref_re)
        & tt)
      ∙ ap (λ b. verdict b (file_json (with_encoding f))) (ground arith)
