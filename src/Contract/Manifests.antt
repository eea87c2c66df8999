-- ===== src/Contract/Manifests.antt =====
-- packages/contract/src/manifest.ts: loading, listing and resolving language manifests. The file
-- system, `JSON.parse` and the zod validator of a manifest are parameters.
pub mod Resolution
use Prim.Native.String.{◌++◌}
use code_runner.Prelude.{
  String, Bool, ◌||◌, Option, none, some, List, [], ◌∷◌, map, ◌==◌, any, filter, find,
}
use code_runner.Prelude.Json.{Json}
use code_runner.Prelude.Result.{Result, ok, err, ◌>>=◌}
use code_runner.Contract.Wire.{Manifest, LanguageInfo}

-- What the loader calls: `readdir`, `path.join` up to `manifest.json`, `readFile` (`none` if it throws), `JSON.parse`
-- and `ManifestSchema.safeParse`, each error as its message.
pub record Environment : Type 0 where
  pub readdir : String → Result String (List String)
  pub manifest_path : String → String → String
  pub read_file : String → Option String
  pub json_parse : String → Result String Json
  pub safe_parse : Json → Result String Manifest

module _ (env : Environment) where
  parsed : String → Result String Json → Result String Json
  parsed manifest_path (ok json) = ok json
  parsed manifest_path (err message) =
      err ("loadManifests: JSON parse error in \"" ++ (manifest_path ++ ("\": " ++ message)))

  validated : String → Result String Manifest → Result String Manifest
  validated manifest_path (ok m) = ok m
  validated manifest_path (err message) =
      err (
        "loadManifests: manifest validation failed for \""
        ++ (manifest_path ++ ("\": " ++ message)))

  -- the body of the loop from the read file on
  unfoldable pub load_entry : String → String → Result String Manifest
  unfolding parsed validated
  load_entry manifest_path raw = do
    json ← parsed manifest_path (env.json_parse raw)
    validated manifest_path (env.safe_parse json)

  -- the loop; an entry with no readable file is skipped
  unfoldable pub load_entries : String → List String → Result String (List Manifest)
  load_entries dir [] = ok []
  load_entries dir (entry ∷ entries) = elim (env.read_file (env.manifest_path dir entry)) [
    | none ↦ load_entries dir entries
    | some raw ↦ do
      m ← load_entry (env.manifest_path dir entry) raw
      rest ← load_entries dir entries
      ok (m ∷ rest)
  ]

  listed : String → Result String (List String) → Result String (List Manifest)
  listed dir (ok entries) = load_entries dir entries
  listed dir (err message) =
      err ("loadManifests: cannot read directory \"" ++ (dir ++ ("\": " ++ message)))

  unfoldable pub load_manifests : String → Result String (List Manifest)
  unfolding listed
  load_manifests dir = listed dir (env.readdir dir)

unfoldable pub to_language_info : List Manifest → List LanguageInfo
to_language_info = map λ m. record {
  language = m.language;
  version = m.version;
  aliases = m.aliases;
  interactive = m.interactive;
}

-- the candidate test, by name or alias
unfoldable pub answers_to : String → Manifest → Bool
answers_to language m = m.language == language || any (λ a. a == language) m.aliases

unfoldable pub pick : String → Option String → List Manifest → Result String Manifest
pick language version [] = err ("resolveManifest: language \"" ++ (language ++ "\" not found"))
pick language none (m ∷ ms) = ok m
pick language (some version) (m ∷ ms) = elim (find (λ c. c.version == version) (m ∷ ms)) [
  | none ↦ err (
      "resolveManifest: language \""
      ++ (language ++ ("\" version \"" ++ (version ++ "\" not found"))))
  | some found ↦ ok found
]

unfoldable pub resolve_manifest : List Manifest → String → Option String → Result String Manifest
unfolding pick
resolve_manifest manifests language version =
    pick language version (filter (answers_to language) manifests)
