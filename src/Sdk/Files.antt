-- ===== src/Sdk/Files.antt =====
-- packages/code-runner-sdk-node/src/files.ts: what the client makes of the files that it is given.
-- A buffer is the list of its bytes.
pub mod Base64
use Prim.Native.String.{◌++◌}
use Prim.Native.String
use code_runner.Prelude.{
  ℕ, zero, suc, ◌+◌, ◌*◌, ◌/◌, ◌%◌, String, Option, none, some, List, [], ◌∷◌, map,
}
use code_runner.Contract.{FileInput, Encoding}

-- `SdkFileInput`: a wire file, a text file (which is a wire file in utf8) or a binary file
pub data SdkFileInput : Type 0 where
  wire : FileInput → SdkFileInput
  binary : (name : String) (bytes : List ℕ) → SdkFileInput

unfoldable pub name_of : SdkFileInput → String
name_of (wire f) = f.name
name_of (binary name bytes) = name

-- the character of a text at a position
unfoldable pub char_at : ℕ → String → String
char_at n String.[] = ""
char_at zero (String.◌∷◌ c s) = String.◌∷◌ c String.[]
char_at (suc n) (String.◌∷◌ c s) = char_at n s

abbrev pub alphabet : String
alphabet = "ABCDEFGHIJKLMNOPQRSTUVWXYZabcdefghijklmnopqrstuvwxyz0123456789+/"

-- six bits
unfoldable pub sextet : ℕ → String
unfolding char_at
sextet n = char_at (n % 64) alphabet

-- `buf.toString("base64")`
unfoldable pub to_base64 : List ℕ → String
unfolding sextet
to_base64 [] = ""
to_base64 (a ∷ []) = sextet (a / 4) ++ (sextet (a % 4 * 16) ++ "==")
to_base64 (a ∷ b ∷ []) =
    sextet (a / 4) ++ (sextet (a % 4 * 16 + b / 16) ++ (sextet (b % 16 * 4) ++ "="))
to_base64 (a ∷ b ∷ c ∷ rest) =
    sextet (a / 4)
    ++ (sextet (a % 4 * 16 + b / 16)
        ++ (sextet (b % 16 * 4 + c / 64) ++ (sextet c ++ to_base64 rest)))

unfoldable pub to_file_input : SdkFileInput → FileInput
unfolding to_base64
to_file_input (binary name bytes) = record {
  name = name;
  content = some (to_base64 bytes);
  encoding = some Encoding.base64;
  ref = none;
}
to_file_input (wire f) = from_wire f.ref
  where
    from_wire : Option String → FileInput
    from_wire (some ref) = record { name = f.name; content = none; encoding = none; ref = some ref }
    from_wire none = record {
      name = f.name;
      content = f.content;
      encoding = f.encoding;
      ref = none;
    }

unfoldable pub to_file_inputs : List SdkFileInput → List FileInput
to_file_inputs files = map to_file_input files
