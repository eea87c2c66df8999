-- ===== src/Tests/Accepted.antt =====
-- The client's files at the gateway, at concrete inputs.
use code_runner.Prelude.{ℕ, String, none, some, Option, List, [], ◌∷◌, ◌≡◌, refl, true, inl}
use code_runner.Prelude.Json.{Json, arr, obj, nil, end, field}
use code_runner.Prelude.Result.{Result, ok}
use code_runner.Contract.{FileInput, Encoding}
use code_runner.Api.Files.{is_hex_run, sanitize_workspace_path, validate_files}
use code_runner.Api.Files.Validation.{IsValidFile, file_size}
use code_runner.Sdk.Files.{SdkFileInput, wire, binary}
use code_runner.Sdk.Client.{HttpRequest, HttpResponse, normalize_files_with_cas}
use code_runner.Sdk.Client.Accepted.{sent_sizes, validate_files-normalize_files_with_cas}

-- a server that has every blob
abbrev agreeable : HttpRequest → Unit {0} → Result String HttpResponse × Unit {0}
agreeable req w = (ok (record { status = 200; text = "{}" }), w)

abbrev none_missing : String → Option Json
none_missing text = some (obj (field "missing" (arr nil) end))

abbrev zeros : String
zeros = "0000000000000000000000000000000000000000000000000000000000000000"

abbrev digest : List ℕ → String
digest buffer = zeros

zeros_hex : is_hex_run 64 zeros ≡ true
unfolding is_hex_run
zeros_hex = refl

abbrev large : SdkFileInput
large = binary "large.bin" (0 ∷ 255 ∷ 16 ∷ 7 ∷ [])

abbrev small : SdkFileInput
small = binary "small.bin" (1 ∷ [])

-- a wire file in base64, of three bytes
abbrev coded_file : FileInput
coded_file = record {
  name = "coded.bin";
  content = some "AQID";
  encoding = some Encoding.base64;
  ref = none;
}

abbrev files : List SdkFileInput
files = large ∷ small ∷ wire coded_file ∷ []

coded_IsValidFile : IsValidFile coded_file
unfolding sanitize_workspace_path code_runner.Prelude.split code_runner.Api.Files.cleaned
    code_runner.Prelude.join code_runner.Api.Files.base64_re code_runner.Api.Files.utf16_length
coded_IsValidFile = (("coded.bin", refl), inl ("AQID", refl, refl, λ e. (refl, refl)))

coded_size : file_size coded_file ≡ 3
unfolding code_runner.Api.Files.decoded_length
coded_size = refl

large_named : sanitize_workspace_path "large.bin" ≡ ok "large.bin"
unfolding sanitize_workspace_path code_runner.Prelude.split code_runner.Api.Files.cleaned
    code_runner.Prelude.join
large_named = refl

small_named : sanitize_workspace_path "small.bin" ≡ ok "small.bin"
unfolding sanitize_workspace_path code_runner.Prelude.split code_runner.Api.Files.cleaned
    code_runner.Prelude.join
small_named = refl

abbrev out : List FileInput
out =
    record {
      name = "large.bin";
      content = none;
      encoding = none;
      ref = some "sha256:0000000000000000000000000000000000000000000000000000000000000000";
    }
    ∷ record {
      name = "small.bin";
      content = some "AQ==";
      encoding = some Encoding.base64;
      ref = none;
    }
    ∷ coded_file
    ∷ []

normalized :
    (normalize_files_with_cas Unit agreeable none_missing digest [] "http://gateway" "secret" 2
      files tt).0
    ≡ ok out
unfolding normalize_files_with_cas code_runner.Sdk.Client.blobs_check code_runner.Sdk.Client.request
    code_runner.Prelude.Json.member code_runner.Sdk.Files.to_file_input
normalized = refl

validate_files-normalize_files_with_cas_example :
    validate_files out ≡ record { total_bytes = sent_sizes 2 files; error = none }
validate_files-normalize_files_with_cas_example =
    validate_files-normalize_files_with_cas Unit agreeable none_missing digest [] "http://gateway"
      "secret" 2 files tt out (λ buffer. zeros_hex)
      (("large.bin", large_named), (("small.bin", small_named), (coded_IsValidFile, tt))) normalized
