-- ===== src/Api/Files/Validation.antt =====
-- When `validateFiles` accepts a list of files, what it counts, and which error it reports.
use Prim.Native.String.{len}
use code_runner.Prelude.{
  ℕ, ◌+◌, ◌%◌, String, true, Option, none, some, List, [], ◌∷◌, ◌++◌, ◌≡◌, ◌↔◌, ◌⊎◌, inl, inr, refl,
  ap, arith, All,
}
use code_runner.Prelude.Result.{Result, ok, err}
use code_runner.Contract.{FileInput, Encoding}
use code_runner.Api.Files.{
  sanitize_workspace_path, base64_re, decoded_length, utf16_length, ref_re, check_content,
  check_source, check_file, validate_from, validate_files, FileValidationError,
  FileValidationResult,
}

-- The source of a valid file: either inline content and no ref, and then base64 content has the
-- shape of base64 and a length divisible by four, or a well-formed ref and no content.
abbrev pub HasSource : FileInput → Type 0
HasSource f =
    ((c : String) × (f.content ≡ some c)
      × (f.ref ≡ none)
      × (f.encoding ≡ some Encoding.base64 → (base64_re c ≡ true) × (utf16_length c % 4 ≡ 0)))
    ⊎ ((r : String) × (f.content ≡ none) × (f.ref ≡ some r) × (ref_re r ≡ true))

abbrev pub IsValidFile : FileInput → Type 0
IsValidFile f = ((rel : String) × (sanitize_workspace_path f.name ≡ ok rel)) × HasSource f

-- The decoded bytes that a file carries inline; a ref carries none.
abbrev pub inline_size : Option Encoding → Option String → ℕ
inline_size e none = 0
inline_size (some Encoding.base64) (some c) = decoded_length c
inline_size (some Encoding.utf8) (some c) = len c
inline_size none (some c) = len c

abbrev pub file_size : FileInput → ℕ
file_size f = inline_size f.encoding f.content

abbrev pub sum_sizes : List FileInput → ℕ
sum_sizes [] = 0
sum_sizes (f ∷ fs) = file_size f + sum_sizes fs

check_source_sound :
    (name : String) (e : Option Encoding) (c r : Option String) (n : ℕ)
    → check_source name e c r ≡ ok n
    → HasSource (record { name = name; content = c; encoding = e; ref = r }) × (n ≡ inline_size e c)
unfolding check_source check_content
check_source_sound name e (some c) (some r) n h = cc
check_source_sound name e none none n h = cc
check_source_sound name e none (some r) n h = (inr (r, refl, refl, ground arith), ground arith)
check_source_sound name none (some c) none n h = (inl (c, refl, refl, λ e. cc), ground arith)
check_source_sound name (some Encoding.utf8) (some c) none n h =
    (inl (c, refl, refl, λ e. cc), ground arith)
check_source_sound name (some Encoding.base64) (some c) none n h =
    (inl (c, refl, refl, λ e. (ground arith, ground arith)), ground arith)

check_source_complete :
    (name : String) (e : Option Encoding) (c r : Option String)
    → HasSource (record { name = name; content = c; encoding = e; ref = r })
    → check_source name e c r ≡ ok (inline_size e c)
unfolding check_source check_content
check_source_complete name e (some c) (some r) h = ground arith
check_source_complete name e none none h = ground arith
check_source_complete name e none (some r) h = ground arith
check_source_complete name none (some c) none h = refl
check_source_complete name (some Encoding.utf8) (some c) none h = refl
check_source_complete name (some Encoding.base64) (some c) none (inl (c', same, _, shape)) =
    let (matches, divides) = shape refl in ground arith
check_source_complete name (some Encoding.base64) (some c) none (inr (r, h, _, _)) = cc

-- A file passes exactly when it is valid, and then it counts with its inline size.
pub check_file_iff :
    (f : FileInput) (n : ℕ) → (check_file f ≡ ok n) ↔ (IsValidFile f × (n ≡ file_size f))
unfolding check_file
check_file_iff f n = (to (sanitize_workspace_path f.name) refl, from)
  where
    to :
        (r : Result String String)
        → sanitize_workspace_path f.name ≡ r
        → check_file f ≡ ok n
        → IsValidFile f × (n ≡ file_size f)
    to (ok rel) e h =
        let (source, size) = check_source_sound f.name f.encoding f.content f.ref n (rw e at h) in
        (((rel, e), source), size)
    to (err m) e h = cc (rw e at h)

    from : IsValidFile f × (n ≡ file_size f) → check_file f ≡ ok n
    from (((rel, e), source), size) =
        rw (e, size) (check_source_complete f.name f.encoding f.content f.ref source)

abbrev pub AllValid : List FileInput → Type 0
AllValid fs = All IsValidFile fs

-- What a validation of `fs` that began at `total` may return.
pub data Outcome (total : ℕ) (fs : List FileInput) (r : FileValidationResult) : Type 0 where
  accepted :
      AllValid fs → r.total_bytes ≡ total + sum_sizes fs → r.error ≡ none → Outcome total fs r
  refused :
      (good rest : List FileInput) (bad : FileInput) (e : FileValidationError)
      → fs ≡ good ++ bad ∷ rest
      → AllValid good
      → check_file bad ≡ err e
      → r.total_bytes ≡ total + sum_sizes good
      → r.error ≡ some e
      → Outcome total fs r

Outcome-cons :
    (total n : ℕ) (f : FileInput) (fs : List FileInput) (r : FileValidationResult)
    → IsValidFile f
    → n ≡ file_size f
    → Outcome (total + n) fs r
    → Outcome total (f ∷ fs) r
Outcome-cons total n f fs r valid size (accepted vs t e) = accepted (valid, vs) (omega arith) e
Outcome-cons total n f fs r valid size (refused good rest bad e same vs b t h) =
    refused (f ∷ good) rest bad e (ap (◌∷◌ f) same) (valid, vs) b (omega arith) h

validate_from-Outcome :
    (total : ℕ) (fs : List FileInput) → Outcome total fs (validate_from total fs)
unfolding validate_from
validate_from-Outcome total [] = accepted tt (omega arith) refl
validate_from-Outcome total (f ∷ fs) =
    go (check_file f) refl (λ n. validate_from-Outcome (total + n) fs)
  where
    go :
        (r : Result FileValidationError ℕ)
        → check_file f ≡ r
        → ((n : ℕ) → Outcome (total + n) fs (validate_from (total + n) fs))
        → Outcome total (f ∷ fs) (validate_from total (f ∷ fs))
    go (ok n) e ih =
        let (valid, size) = (check_file_iff f n).0 e in
        rw (e, validate_from)
          (Outcome-cons total n f fs (validate_from (total + n) fs) valid size (ih n))
    go (err x) e ih = rw (e, validate_from) (refused [] fs f x refl tt e (omega arith) refl)

-- `validateFiles` either accepts the list, and then every file is valid and the total is the sum of
-- the inline sizes, or it reports the error of the first file that is not valid, with the sizes of
-- the files before it for a total.
pub validate_files-Outcome : (fs : List FileInput) → Outcome 0 fs (validate_files fs)
unfolding validate_files
validate_files-Outcome fs = validate_from-Outcome 0 fs
