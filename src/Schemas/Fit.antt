-- ===== src/Schemas/Fit.antt =====
-- Which wire values fit their schemas, as tests, and what their parse is.
use code_runner.Prelude.{ℕ, String, Bool, true, ◌&&◌, Option, none, some, List, [], ◌∷◌, all, leb}
use mathlib.Core.Option
use code_runner.Prelude.Json.{Json, num, str, obj, end, optional}
use code_runner.Contract.{Limits, LimitsOverride, FileInput, Encoding, utf8, encoding_name}
use code_runner.Api.Files.{ref_re}
use code_runner.Schemas.{text}
use code_runner.Schemas.Zod.{Schema, Need, string, pattern, integer, one_of, has_length}
use code_runner.Schemas.Zod.Rows.{Row}

-- the test of a value that may be missing
abbrev pub if_given {ℓ} : {A : Type ℓ} → (A → Bool) → Option A → Bool
if_given fits none = true
if_given fits (some a) = fits a

abbrev pub limits_fit : Limits → Bool
limits_fit l = all (leb 1) (
    l.wall_time_ms ∷ l.idle_ms ∷ l.cpu_ms ∷ l.memory_mb ∷ l.pids ∷ l.output_kb ∷ l.max_artifacts
    ∷ l.max_artifact_bytes ∷ [])

abbrev pub override_fits : LimitsOverride → Bool
override_fits o = all (if_given (leb 1)) (
    o.wall_time_ms ∷ o.idle_ms ∷ o.cpu_ms ∷ o.memory_mb ∷ o.pids ∷ o.output_kb ∷ o.max_artifacts
    ∷ o.max_artifact_bytes ∷ [])

abbrev pub override_json : LimitsOverride → Json
override_json o = obj (
    optional "wallTimeMs" num o.wall_time_ms (
      optional "idleMs" num o.idle_ms (
        optional "cpuMs" num o.cpu_ms (
          optional "memoryMb" num o.memory_mb (
            optional "pids" num o.pids (
              optional "outputKb" num o.output_kb (
                optional "maxArtifacts" num o.max_artifacts
                  (optional "maxArtifactBytes" num o.max_artifact_bytes end))))))))

abbrev pub file_fits : FileInput → Bool
file_fits f = has_length 1 (some 255) f.name && if_given ref_re f.ref

abbrev pub or_utf8 : Option Encoding → Encoding
or_utf8 none = utf8
or_utf8 (some e) = e

-- the file with the encoding that the schema fills in
abbrev pub with_encoding : FileInput → FileInput
with_encoding f = record f { encoding = some (or_utf8 f.encoding) }

-- A property with a value, one that may be missing, and one of a type that always fits.
abbrev pub row : String → Need → Schema → Json → Bool → Row
row k need s v fits = record {
  key = k;
  need = need;
  schema = s;
  value = some v;
  fits = fits;
  out = some v;
}

abbrev pub optional_row {ℓ} :
    {A : Type ℓ} → String → Schema → (A → Json) → (A → Bool) → Option A → Row
optional_row k s put fits o = record {
  key = k;
  need = Need.optional;
  schema = s;
  value = Option.map put o;
  fits = if_given fits o;
  out = Option.map put o;
}

abbrev pub free_row {ℓ} : {A : Type ℓ} → String → Schema → (A → Json) → Option A → Row
free_row k s put o = record {
  key = k;
  need = Need.optional;
  schema = s;
  value = Option.map put o;
  fits = true;
  out = Option.map put o;
}

abbrev pub positive : Schema
positive = integer (some 1)

abbrev pub encoding_schema : Schema
encoding_schema = one_of ("utf8" ∷ "base64" ∷ [])

abbrev pub limit : String → Need → ℕ → Row
limit k need n = row k need positive (num n) (leb 1 n)

abbrev pub limit_rows : Limits → List Row
limit_rows l =
    limit "wallTimeMs" Need.required l.wall_time_ms
    ∷ limit "idleMs" Need.required l.idle_ms
    ∷ limit "cpuMs" Need.required l.cpu_ms
    ∷ limit "memoryMb" Need.required l.memory_mb
    ∷ limit "pids" Need.required l.pids
    ∷ limit "outputKb" Need.required l.output_kb
    ∷ limit "maxArtifacts" (Need.default (num 20)) l.max_artifacts
    ∷ limit "maxArtifactBytes" (Need.default (num 4194304)) l.max_artifact_bytes
    ∷ []

abbrev pub override : String → Option ℕ → Row
override k o = optional_row k positive num (leb 1) o

abbrev pub override_rows : LimitsOverride → List Row
override_rows o =
    override "wallTimeMs" o.wall_time_ms
    ∷ override "idleMs" o.idle_ms
    ∷ override "cpuMs" o.cpu_ms
    ∷ override "memoryMb" o.memory_mb
    ∷ override "pids" o.pids
    ∷ override "outputKb" o.output_kb
    ∷ override "maxArtifacts" o.max_artifacts
    ∷ override "maxArtifactBytes" o.max_artifact_bytes
    ∷ []

abbrev pub encoding_row : Option Encoding → Row
encoding_row o = record {
  key = "encoding";
  need = Need.default (str "utf8");
  schema = encoding_schema;
  value = Option.map (λ e. str (encoding_name e)) o;
  fits = true;
  out = some (str (encoding_name (or_utf8 o)));
}

abbrev pub file_rows : FileInput → List Row
file_rows f =
    row "name" Need.required (string 1 (some 255)) (str f.name) (has_length 1 (some 255) f.name)
    ∷ free_row "content" text str f.content
    ∷ encoding_row f.encoding
    ∷ optional_row "ref" (pattern ref_re) str ref_re f.ref
    ∷ []
