-- ===== src/Schemas/Messages.antt =====
-- StdinMessageSchema, ControlMessageSchema and LanguageInfoSchema: what the gateway publishes for a
-- worker and lists for a client.
use code_runner.Prelude.{String, Option, some, [], ◌∷◌, ◌≡◌, refl, ◌∙◌, true, arith}
use code_runner.Prelude.Json.{Json, bool, str}
use code_runner.Contract.{ControlType, start, kill, stdin_close, LanguageInfo, strings}
use code_runner.Api.Stdin.{chunk_json}
use code_runner.Api.Control.{control_json, control_name}
use code_runner.Api.Jobs.{language_info_json}
use code_runner.Schemas.{
  text, stdin_message_schema, control_type_schema, control_message_schema, language_info_schema,
}
use code_runner.Schemas.Zod
use code_runner.Schemas.Zod.{Schema, Need, boolean, IsZod}
use code_runner.Schemas.Zod.Rows.{◌&◌, parse_rows}
use code_runner.Schemas.Fit.{row}
use code_runner.Schemas.Values.{given_value, text_fits, strings_fit}

module _ (parse : Schema → Json → Option Json) (zod : IsZod parse) where
  control_fits :
      (t : ControlType)
      → parse control_type_schema (str (control_name t)) ≡ some (str (control_name t))
  control_fits start = zod.one_of_law _ "start"
  control_fits kill = zod.one_of_law _ "kill"
  control_fits stdin_close = zod.one_of_law _ "stdin_close"

  -- Every message that the gateway publishes for a worker passes the schema of its channel unchanged:
  -- a chunk of stdin, whatever its text, and each of the three control messages.
  pub published-IsTyped :
      (chunk : String) (t : ControlType)
      → (parse stdin_message_schema (chunk_json chunk) ≡ some (chunk_json chunk))
        × (parse control_message_schema (control_json t) ≡ some (control_json t))
  published-IsTyped chunk t = (
    parse_rows parse zod (row "chunk" Need.required text (str chunk) true ∷ []) refl (
        given_value parse zod Need.required text (str chunk) true (text_fits parse zod chunk) & tt),
    parse_rows parse zod
        (row "type" Need.required control_type_schema (str (control_name t)) true ∷ []) refl
        (given_value parse zod Need.required control_type_schema (str (control_name t)) true
            (control_fits t)
          & tt),
  )

  -- A listed language passes LanguageInfoSchema unchanged.
  pub language-IsTyped :
      (l : LanguageInfo)
      → parse language_info_schema (language_info_json l) ≡ some (language_info_json l)
  unfolding language_info_json strings
  language-IsTyped l =
      parse_rows parse zod
        (row "language" Need.required text (str l.language) true
          ∷ row "version" Need.required text (str l.version) true
          ∷ row "aliases" Need.required (Zod.array text 0) (strings l.aliases) true
          ∷ row "interactive" Need.required boolean (bool l.interactive) true
          ∷ [])
        refl
        (given_value parse zod Need.required _ _ true (text_fits parse zod l.language)
          & given_value parse zod Need.required _ _ true (text_fits parse zod l.version)
          & given_value parse zod Need.required _ _ true
              (strings_fit parse zod 0 l.aliases ∙ ground arith)
          & given_value parse zod Need.required _ _ true (zod.boolean_law l.interactive)
          & tt)
