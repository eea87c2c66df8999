-- ===== src/Api/Files.antt =====
-- apps/api/src/files.ts: the checks of the input files of POST /v1/execute.
pub mod Paths
pub mod Validation
use Prim.Native.Char.{code}
use Prim.Native.String.{◌++◌, len}
use Prim.Native.String
use mathlib.Core.Bool.{not}
use code_runner.Prelude.{
  ℕ, zero, suc, ◌+◌, ◌*◌, ◌/◌, ◌%◌, String, Bool, true, false, ◌&&◌, ◌||◌, Option, none, some, List,
  [], ◌∷◌, ◌==◌, starts_with, split, join, any, filter, leb, ltb, eqb, drop_prefix, or_default,
  is_some, if◌then◌else◌,
}
use code_runner.Prelude.Result.{Result, ok, err, ◌>>=◌}
use code_runner.Contract.{FileInput, Encoding}

unfoldable pub is_dots : String → Bool
is_dots s = s == ".."

-- the filter that drops "." and empty segments
unfoldable pub is_kept : String → Bool
is_kept s = not (s == "") && not (s == ".")

unfoldable pub cleaned : String → String
unfolding is_kept
cleaned name = join "/" (filter is_kept (split b'/' name))

unfoldable pub sanitize_workspace_path : String → Result String String
unfolding is_dots
sanitize_workspace_path name =
    if name == ""
    then err "file name is empty"
    else if starts_with name "/"
    then err
        ("file name \"" ++ (name ++ "\" is absolute; only relative workspace paths are allowed"))
    else if any is_dots (split b'/' name)
    then err ("file name \"" ++ (name ++ "\" contains a \"..\" traversal segment"))
    else if cleaned name == ""
    then err ("file name \"" ++ (name ++ "\" does not resolve to a file inside the workspace"))
    else ok (cleaned name)

-- [A-Za-z0-9+/]
unfoldable pub is_base64_char : ℕ → Bool
is_base64_char c =
    leb b'A' c && leb c b'Z'
    || leb b'a' c && leb c b'z'
    || leb b'0' c && leb c b'9'
    || eqb c b'+'
    || eqb c b'/'

-- ={0,2}$
unfoldable pub is_padding : String → Bool
is_padding s = s == "" || s == "=" || s == "=="

-- BASE64_RE, /^[A-Za-z0-9+/]*={0,2}$/
unfoldable pub base64_re : String → Bool
unfolding is_base64_char is_padding
base64_re String.[] = true
base64_re (String.◌∷◌ c s) =
    if is_base64_char (code c) then base64_re s else is_padding (String.◌∷◌ c s)

-- The characters in front of the padding.
unfoldable pub body_length : String → ℕ
unfolding is_base64_char
body_length String.[] = 0
body_length (String.◌∷◌ c s) = if is_base64_char (code c) then suc (body_length s) else 0

-- `Buffer.from(s, "base64").length` for a text of that shape: six bits a character, whole bytes only
unfoldable pub decoded_length : String → ℕ
unfolding body_length
decoded_length s = 3 * body_length s / 4

-- `s.length`: UTF-16 code units
unfoldable pub utf16_length : String → ℕ
utf16_length String.[] = 0
utf16_length (String.◌∷◌ c s) = (if ltb (code c) 0x10000 then 1 else 2) + utf16_length s

-- [a-f0-9]
unfoldable pub is_hex : ℕ → Bool
is_hex c = leb b'a' c && leb c b'f' || leb b'0' c && leb c b'9'

-- [a-f0-9]{n}$
unfoldable pub is_hex_run : ℕ → String → Bool
unfolding is_hex
is_hex_run zero String.[] = true
is_hex_run zero (String.◌∷◌ _ _) = false
is_hex_run (suc n) String.[] = false
is_hex_run (suc n) (String.◌∷◌ c s) = is_hex (code c) && is_hex_run n s

abbrev hex_rest : Option String → Bool
hex_rest none = false
hex_rest (some rest) = is_hex_run 64 rest

-- REF_RE, /^sha256:[a-f0-9]{64}$/
unfoldable pub ref_re : String → Bool
unfolding is_hex_run drop_prefix
ref_re s = hex_rest (drop_prefix "sha256:" s)

pub data ErrorKind : Type 0 where
  path base64 ref : ErrorKind

pub record FileValidationError : Type 0 where
  pub kind : ErrorKind
  pub name : String
  pub message : String

pub record FileValidationResult : Type 0 where
  pub total_bytes : ℕ
  pub error : Option FileValidationError

abbrev failure : ErrorKind → String → String → Result FileValidationError ℕ
failure kind name message = err (record { kind = kind; name = name; message = message })

-- the content of an inline file, by its encoding: its decoded size
unfoldable pub check_content : String → Encoding → String → Result FileValidationError ℕ
check_content name Encoding.base64 content =
    if not (base64_re content) || not (eqb (utf16_length content % 4) 0)
    then failure ErrorKind.base64 name ("file \"" ++ (name ++ "\": content is not valid base64"))
    else ok (decoded_length content)
check_content name Encoding.utf8 content = ok (len content)

-- content and ref exclude one another; the bytes of a ref are not counted
unfoldable pub check_source :
    String → Option Encoding → Option String → Option String → Result FileValidationError ℕ
check_source name encoding (some content) (some blob) =
    failure ErrorKind.ref name
      ("file \"" ++ (name ++ "\": exactly one of \"content\" or \"ref\" is allowed, not both"))
check_source name encoding none none =
    failure ErrorKind.ref name
      ("file \"" ++ (name ++ "\": exactly one of \"content\" or \"ref\" is required"))
check_source name encoding none (some blob) =
    if not (ref_re blob)
    then failure ErrorKind.ref name
        ("file \"" ++ (name ++ ("\": ref must be \"sha256:<64 hex>\", got \"" ++ (blob ++ "\""))))
    else ok 0
check_source name encoding (some content) none =
    check_content name (or_default encoding Encoding.utf8) content

abbrev path_error : String → Result String String → Result FileValidationError String
path_error name (ok rel) = ok rel
path_error name (err message) =
    err (record { kind = ErrorKind.path; name = name; message = message })

-- the body of the loop of `validateFiles`: what the file adds to the total
unfoldable pub check_file : FileInput → Result FileValidationError ℕ
check_file f = do
  rel ← path_error f.name (sanitize_workspace_path f.name)
  check_source f.name f.encoding f.content f.ref

unfoldable pub validate_from : ℕ → List FileInput → FileValidationResult
validate_from total [] = record { total_bytes = total; error = none }
validate_from total (f ∷ fs) = elim (check_file f) [
  | ok n ↦ validate_from (total + n) fs
  | err e ↦ record { total_bytes = total; error = some e }
]

unfoldable pub validate_files : List FileInput → FileValidationResult
unfolding validate_from
validate_files files = validate_from 0 files
