-- ===== src/Schemas/Requests.antt =====
-- ExecuteRequestSchema and ManifestSchema: which requests and which manifests pass, and what becomes
-- of them. What a caller sends is the JSON text of an `ExecuteRequest`.
use mathlib.Core.List.{map}
use code_runner.Prelude.{
  String, Bool, true, ◌&&◌, Option, none, some, List, [], ◌∷◌, ◌≡◌, refl, ap, ◌∙◌, all, leb, length,
  arith,
}
use code_runner.Prelude.Json
use code_runner.Prelude.Json.{Json, bool, str, arr, obj, end, field, array, optional}
use code_runner.Contract.{
  ExecuteRequest, FileInput, Manifest, file_json, limits_json, strings, or_null,
}
use code_runner.Schemas.{
  text, limits_schema, limits_override_schema, file_input_schema, execute_request_schema,
  manifest_schema,
}
use code_runner.Schemas.Zod
use code_runner.Schemas.Zod.{Schema, Need, string, boolean, nullable, verdict, has_length, IsZod}
use code_runner.Schemas.Zod.Rows.{Row, ◌&◌, parse_rows, parse_array}
use code_runner.Schemas.Fit.{
  if_given, limits_fit, override_fits, override_json, file_fits, with_encoding, row, optional_row,
  free_row,
}
use code_runner.Schemas.Values.{
  given_value, optional_value, free_value, text_fits, strings_fit, or_null_fits, parse-limits_json,
  parse-override_json, parse-file_json,
}

-- `JSON.stringify` of a request
unfoldable pub request_json : ExecuteRequest → Json
request_json req = obj (
    field "language" (str req.language) (
      optional "version" str req.version (
        field "files" (arr (array file_json req.files)) (
          optional "limits" override_json req.limits
            (optional "collectOutput" bool req.collect_output end)))))

-- A language that is named, a file at least, each file and each limit in its range.
unfoldable pub request_fits : ExecuteRequest → Bool
request_fits req =
    has_length 1 none req.language
    && (leb 1 (length req.files) && all file_fits req.files)
    && if_given override_fits req.limits

-- the request with the encoding of each file
unfoldable pub with_defaults : ExecuteRequest → ExecuteRequest
with_defaults req = record req { files = map with_encoding req.files }

unfoldable pub manifest_json : Manifest → Json
manifest_json m = obj (
    field "language" (str m.language) (
      field "version" (str m.version) (
        field "aliases" (strings m.aliases) (
          field "image" (str m.image) (
            field "entrypoint" (str m.entrypoint) (
              field "compile" (or_null m.compile) (
                field "run" (strings m.run) (
                  field "interactive" (bool m.interactive) (
                    field "preimport" (or_null m.preimport)
                      (field "defaultLimits" (limits_json m.default_limits) end))))))))))

unfoldable pub manifest_fits : Manifest → Bool
manifest_fits m =
    has_length 1 none m.language
    && has_length 1 none m.version
    && has_length 1 none m.image
    && has_length 1 none m.entrypoint
    && leb 1 (length m.run)
    && limits_fit m.default_limits

abbrev files_fit : List FileInput → Bool
files_fit fs = leb 1 (length fs) && all file_fits fs

abbrev files_json : List FileInput → Json
files_json fs = arr (array file_json fs)

-- the row of `files`
abbrev pub files_row : List FileInput → Row
files_row fs = record {
  key = "files";
  need = Need.required;
  schema = Zod.array file_input_schema 1;
  value = some (files_json fs);
  fits = files_fit fs;
  out = some (files_json (map with_encoding fs));
}

abbrev request_rows : ExecuteRequest → List Row
request_rows req =
    row "language" Need.required (string 1 none) (str req.language) (has_length 1 none req.language)
    ∷ free_row "version" text str req.version
    ∷ files_row req.files
    ∷ optional_row "limits" limits_override_schema override_json override_fits req.limits
    ∷ free_row "collectOutput" boolean bool req.collect_output
    ∷ []

abbrev named_row : String → String → Row
named_row k s = row k Need.required (string 1 none) (str s) (has_length 1 none s)

abbrev manifest_rows : Manifest → List Row
manifest_rows m =
    named_row "language" m.language
    ∷ named_row "version" m.version
    ∷ row "aliases" (Need.default (arr Json.nil)) (Zod.array text 0) (strings m.aliases) true
    ∷ named_row "image" m.image
    ∷ named_row "entrypoint" m.entrypoint
    ∷ row "compile" Need.required (nullable (Zod.array text 0)) (or_null m.compile) true
    ∷ row "run" Need.required (Zod.array text 1) (strings m.run) (leb 1 (length m.run))
    ∷ row "interactive" Need.required boolean (bool m.interactive) true
    ∷ row "preimport" (Need.default Json.null) (nullable (Zod.array text 0)) (or_null m.preimport)
        true
    ∷ row "defaultLimits" Need.required limits_schema (limits_json m.default_limits)
        (limits_fit m.default_limits)
    ∷ []

array-map :
    (fs : List FileInput)
    → array (λ f. file_json (with_encoding f)) fs ≡ array file_json (map with_encoding fs)
unfolding array
array-map [] = refl
array-map (f ∷ fs) = ap (Json.cons (file_json (with_encoding f))) (array-map fs)

module _ (parse : Schema → Json → Option Json) (zod : IsZod parse) where
  pub parse-files_json :
      (fs : List FileInput)
      → parse (Zod.array file_input_schema 1) (files_json fs)
        ≡ verdict (files_fit fs) (files_json (map with_encoding fs))
  parse-files_json fs =
      parse_array parse zod file_input_schema 1 file_json (λ f. file_json (with_encoding f))
        file_fits fs (parse-file_json parse zod)
      ∙ rw (array-map fs)

  pub files_value :
      (fs : List FileInput)
      → Zod.parse_need (parse (Zod.array file_input_schema 1)) Need.required (some (files_json fs))
        ≡ verdict (files_fit fs) (some (files_json (map with_encoding fs)))
  files_value fs = rw (parse-files_json fs) (ground arith)

  -- The gateway accepts the JSON text of a request exactly if the language is not empty, there is a
  -- file, each file has a name of 1 to 255 UTF-16 units and a well-formed ref if any, and each limit
  -- that is given is at least 1; the request that is parsed is the one sent, with utf8 as the encoding
  -- of a file that had none.
  pub parse-request_json :
      (req : ExecuteRequest)
      → parse execute_request_schema (request_json req)
        ≡ verdict (request_fits req) (request_json (with_defaults req))
  unfolding request_json request_fits with_defaults
  parse-request_json req =
      parse_rows parse zod (request_rows req) refl (
        given_value parse zod Need.required _ (str req.language) _
          (zod.string_law 1 none req.language)
        & free_value parse zod text str req.version (text_fits parse zod)
        & files_value req.files
        & optional_value parse zod limits_override_schema override_json override_fits req.limits
            (parse-override_json parse zod)
        & free_value parse zod boolean bool req.collect_output zod.boolean_law
        & tt)
      ∙ ap (λ b. verdict b (request_json (with_defaults req))) (ground arith)

  named_value :
      (s : String)
      → Zod.parse_need (parse (string 1 none)) Need.required (some (str s))
        ≡ verdict (has_length 1 none s) (some (str s))
  named_value s = given_value parse zod Need.required _ (str s) _ (zod.string_law 1 none s)

  pub parse-manifest_json :
      (m : Manifest)
      → parse manifest_schema (manifest_json m) ≡ verdict (manifest_fits m) (manifest_json m)
  unfolding manifest_json manifest_fits
  parse-manifest_json m =
      parse_rows parse zod (manifest_rows m) refl (
        named_value m.language
        & named_value m.version
        & given_value parse zod (Need.default (arr Json.nil)) _ _ true
            (strings_fit parse zod 0 m.aliases ∙ ground arith)
        & named_value m.image
        & named_value m.entrypoint
        & given_value parse zod Need.required _ _ true (or_null_fits parse zod m.compile)
        & given_value parse zod Need.required _ _ _ (strings_fit parse zod 1 m.run)
        & given_value parse zod Need.required _ _ true (zod.boolean_law m.interactive)
        & given_value parse zod (Need.default Json.null) _ _ true
            (or_null_fits parse zod m.preimport)
        & given_value parse zod Need.required _ _ _ (parse-limits_json parse zod m.default_limits)
        & tt)
      ∙ ap (λ b. verdict b (manifest_json m)) (ground arith)
