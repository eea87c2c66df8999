-- ===== src/Sdk/Client/Accepted.antt =====
-- The gateway accepts what the client makes of the files that it is given.
use Prim.Native.String.{◌++◌}
use code_runner.Prelude.{
  ℕ, ◌+◌, String, true, Option, none, some, List, [], ◌∷◌, ◌≡◌, refl, ap, ◌∙◌, arith, All,
  Bool-cases, inl, inr, length, ltb, if◌then◌else◌,
}
use mathlib.Core.Path.{subst}
use code_runner.Prelude.Dropping.{drop_prefix-append}
use code_runner.Prelude.Json.{Json}
use code_runner.Prelude.Result.{Result, ok, err}
use code_runner.Contract.{FileInput}
use code_runner.Api.Files.{
  sanitize_workspace_path, is_hex_run, ref_re, check_source, check_file, validate_from,
  validate_files,
}
use code_runner.Api.Files.Validation.{IsValidFile, file_size, check_file_iff}
use code_runner.Sdk.Files.{SdkFileInput, wire, binary, to_file_input}
use code_runner.Sdk.Files.Base64.{check_file-to_file_input}
use code_runner.Sdk.Client.{
  HttpRequest, HttpResponse, Thrown, upload_blob, normalize_file, normalize_files_with_cas, settled,
  sha256_ref,
}
use code_runner.Sdk.Client.Uploads.{upload_blob-IsChecked}

-- A wire file that is valid, or a buffer with a name that stays in the workspace.
abbrev pub IsSendable : SdkFileInput → Type 0
IsSendable (wire f) = IsValidFile f
IsSendable (binary name buffer) = (rel : String) × (sanitize_workspace_path name ≡ ok rel)

-- the bytes that a file carries inline; a buffer above the threshold is uploaded
abbrev pub sent_size : ℕ → SdkFileInput → ℕ
sent_size threshold (wire f) = file_size f
sent_size threshold (binary name buffer) =
    if ltb threshold (length buffer) then 0 else length buffer

abbrev pub sent_sizes : ℕ → List SdkFileInput → ℕ
sent_sizes threshold [] = 0
sent_sizes threshold (f ∷ fs) = sent_size threshold f + sent_sizes threshold fs

ref_re-digest :
    (digest : String) → is_hex_run 64 digest ≡ true → ref_re ("sha256:" ++ digest) ≡ true
unfolding ref_re
ref_re-digest digest h = rw (drop_prefix-append "sha256:" digest) h

check_file-ref :
    (name rel ref : String)
    → sanitize_workspace_path name ≡ ok rel
    → ref_re ref ≡ true
    → check_file (record { name = name; content = none; encoding = none; ref = some ref }) ≡ ok 0
unfolding check_file check_source
check_file-ref name rel ref h k = rw (h, k) refl

-- A valid wire file goes out valid, with its encoding, and counts as many bytes as it came with.
check_file-wire :
    (f : FileInput) → IsValidFile f → check_file (to_file_input (wire f)) ≡ ok (file_size f)
unfolding to_file_input
check_file-wire f ((rel, named), inl (c, content, no_ref, shape)) = rw no_ref (
    (check_file_iff
        (record { name = f.name; content = f.content; encoding = f.encoding; ref = none })
        (file_size f)).1
      (((rel, named), inl (c, content, refl, shape)), refl))
check_file-wire f ((rel, named), inr (r, no_content, ref, shape)) =
    rw (ref, no_content) (check_file-ref f.name rel r named shape)

module _ {ℓ} (W : Type ℓ) (fetch : HttpRequest → W → Result String HttpResponse × W)
    (json_parse : String → Option Json) (sha256_hex : List ℕ → String)
    (injected : List (String × String)) (base_url token : String) (threshold : ℕ) where
  abbrev normalize : SdkFileInput → W → Result Thrown FileInput × W
  normalize = normalize_file W fetch json_parse sha256_hex injected base_url token threshold

  abbrev normalize_all : List SdkFileInput → W → Result Thrown (List FileInput) × W
  normalize_all =
      normalize_files_with_cas W fetch json_parse sha256_hex injected base_url token threshold

  abbrev upload : List ℕ → W → Result Thrown String × W
  upload = upload_blob W fetch json_parse sha256_hex injected base_url token threshold

  -- the file that stands for an upload
  uploaded-accepted :
      (name rel : String) (buffer : List ℕ) (w : W) (c : Result Thrown String × W) (out : FileInput)
      → sanitize_workspace_path name ≡ ok rel
      → is_hex_run 64 (sha256_hex buffer) ≡ true
      → upload buffer w ≡ c
      → (settled W fetch json_parse sha256_hex injected base_url token threshold
          (λ ref u.
            (ok (record { name = name; content = none; encoding = none; ref = some ref }), u))
          c).0
        ≡ ok out
      → check_file out ≡ ok 0
  unfolding sha256_ref
  uploaded-accepted name rel buffer w (ok ref, u) out h hex e k =
      let (same, _) =
        upload_blob-IsChecked W fetch json_parse sha256_hex injected base_url token threshold buffer
          w ref u (ap (λ o. o.0) e) (ap (λ o. o.1) e) in
      let file : FileInput = record {
        name = name;
        content = none;
        encoding = none;
        ref = some ref;
      } in
      let made : file ≡ out = cc (k) in
      subst (λ o. check_file o ≡ ok 0) made
        (check_file-ref name rel ref h (rw same (ref_re-digest (sha256_hex buffer) hex)))
  uploaded-accepted name rel buffer w (err x, u) out h hex e k = absurd (cc k)

  normalize-accepted :
      (f : SdkFileInput) (w : W) (out : FileInput)
      → ((buffer : List ℕ) → is_hex_run 64 (sha256_hex buffer) ≡ true)
      → IsSendable f
      → (normalize f w).0 ≡ ok out
      → check_file out ≡ ok (sent_size threshold f)
  unfolding normalize_file
  normalize-accepted (wire f) w out hex h k =
      let made : to_file_input (wire f) ≡ out = cc (k) in
      subst (λ o. check_file o ≡ ok (file_size f)) made (check_file-wire f h)
  normalize-accepted (binary name buffer) w out hex (rel, h) k =
      elim (Bool-cases (ltb threshold (length buffer))) [
        | inl large ↦ rw large (
            uploaded-accepted name rel buffer w (upload buffer w) out h (hex buffer) refl
              (rw large at k))
        | inr small ↦
            let made : to_file_input (binary name buffer) ≡ out = cc (rw small at k) in
            rw small (
              subst (λ o. check_file o ≡ ok (length buffer)) made
                (check_file-to_file_input name rel buffer h))
      ]

  -- What the gateway makes of the list, from a total on.
  abbrev IsAccepted : ℕ → ℕ → List FileInput → Type 0
  IsAccepted total size out =
      validate_from total out ≡ record { total_bytes = total + size; error = none }

  cons-IsAccepted :
      (first : FileInput) (n size total : ℕ) (c : Result Thrown (List FileInput) × W)
      (out : List FileInput)
      → check_file first ≡ ok n
      → ((files : List FileInput) → c.0 ≡ ok files → IsAccepted (total + n) size files)
      → (settled W fetch json_parse sha256_hex injected base_url token threshold
          (λ rest v. (ok (first ∷ rest), v))
          c).0
        ≡ ok out
      → IsAccepted total (n + size) out
  unfolding validate_from
  cons-IsAccepted first n size total (ok files, v) out one ih k =
      let made : first ∷ files ≡ out = cc k in
      subst (λ o. IsAccepted total (n + size) o) made
        (rw (one, validate_from)
          (ih files refl ∙ ap (λ (m : ℕ). record { total_bytes = m; error = none }) (omega arith)))
  cons-IsAccepted first n size total (err x, v) out one ih k = absurd (cc k)

  normalize_all-IsAccepted :
      (fs : List SdkFileInput) (w : W) (out : List FileInput) (total : ℕ)
      → ((buffer : List ℕ) → is_hex_run 64 (sha256_hex buffer) ≡ true)
      → All IsSendable fs
      → (normalize_all fs w).0 ≡ ok out
      → IsAccepted total (sent_sizes threshold fs) out
  unfolding normalize_files_with_cas validate_from
  normalize_all-IsAccepted [] w out total hex h k =
      let made : [] ≡ out = cc k in
      subst (λ o. IsAccepted total 0 o) made
        (ap (λ (n : ℕ). record { total_bytes = n; error = none }) (omega arith))
  normalize_all-IsAccepted (f ∷ fs) w out total hex (h, hs) k =
      go (normalize f w) refl
        (λ u files e. normalize_all-IsAccepted fs u files (total + sent_size threshold f) hex hs e)
        k
    where
      go :
          (c : Result Thrown FileInput × W)
          → normalize f w ≡ c
          → ((u : W) (files : List FileInput)
              → (normalize_all fs u).0 ≡ ok files
              → IsAccepted (total + sent_size threshold f) (sent_sizes threshold fs) files)
          → (settled W fetch json_parse sha256_hex injected base_url token threshold
              (λ first u.
                settled W fetch json_parse sha256_hex injected base_url token threshold
                  (λ rest v. (ok (first ∷ rest), v))
                  (normalize_all fs u))
              c).0
            ≡ ok out
          → IsAccepted total (sent_size threshold f + sent_sizes threshold fs) out
      go (ok first, u) e ih k =
          cons-IsAccepted first (sent_size threshold f) (sent_sizes threshold fs) total
            (normalize_all fs u) out (normalize-accepted f w first hex h (ap (λ o. o.0) e)) (ih u) k
      go (err x, u) e ih k = absurd (cc k)

  -- Where the digest has its 64 hexadecimal digits, and each file is a valid wire file or a buffer
  -- with a name that stays in the workspace: if the client can normalize the files at all, uploads
  -- included, the gateway's validation of what comes out finds no error, and counts the decoded bytes
  -- of the wire files as they were given, the length of each buffer that is sent inline, and none for
  -- the buffers that are uploaded.
  pub validate_files-normalize_files_with_cas :
      (fs : List SdkFileInput) (w : W) (out : List FileInput)
      → ((buffer : List ℕ) → is_hex_run 64 (sha256_hex buffer) ≡ true)
      → All IsSendable fs
      → (normalize_files_with_cas W fetch json_parse sha256_hex injected base_url token threshold fs
          w).0
        ≡ ok out
      → validate_files out ≡ record { total_bytes = sent_sizes threshold fs; error = none }
  unfolding validate_files
  validate_files-normalize_files_with_cas fs w out hex h k =
      normalize_all-IsAccepted fs w out 0 hex h k
      ∙ ap (λ (n : ℕ). record { total_bytes = n; error = none }) (omega arith)
