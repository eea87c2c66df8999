-- ===== src/Api/Presign.antt =====
-- apps/api/src/blobPresign.ts: the endpoint of the blob store, and the client that signs upload URLs
-- for it. The signing is minio's: a parameter, of the client, the bucket, the key and the time.
pub mod Digits
pub mod Endpoint
pub mod Roundtrip
use Prim.Native.Char.{code}
use Prim.Native.String.{◌++◌}
use Prim.Native.String
use code_runner.Prelude.{
  ℕ, String, Bool, true, false, ◌&&◌, Option, none, some, ◌==◌, not, eqb, is_some, or_default,
  trim_slashes, if◌then◌else◌,
}
use code_runner.Prelude.Int.{pos, Number, int}
use code_runner.Prelude.State.{State}
use code_runner.Api.Config.{Config, is_digit, parse_int, drop_prefix_any_case}

-- BLOB_KEY_PREFIX
abbrev pub blob_key_prefix : String
blob_key_prefix = "blobs/cas/"

unfoldable pub blob_object_key : String → String
blob_object_key hash = blob_key_prefix ++ hash

pub record ParsedEndpoint : Type 0 where
  pub end_point : String
  pub port : Number
  pub use_ssl : Bool

-- `s.replace(/^prefix/i, "")`
unfoldable pub without : String → String → String
without prefix s = or_default (drop_prefix_any_case prefix s) s

-- up to the first slash: `indexOf` and `slice`
unfoldable pub before_slash : String → String
before_slash String.[] = ""
before_slash (String.◌∷◌ c s) =
    let rest = before_slash s in if eqb (code c) b'/' then "" else String.◌∷◌ c rest

-- in front of the last colon, and behind it: `lastIndexOf` and `slice`
unfoldable pub at_last_colon : String → Option (String × String)
at_last_colon String.[] = none
at_last_colon (String.◌∷◌ c s) = elim (at_last_colon s) [
  | some (front, back) ↦ some (String.◌∷◌ c front, back)
  | none ↦ if eqb (code c) b':' then some ("", s) else none
]

unfoldable pub all_digits : String → Bool
all_digits String.[] = true
all_digits (String.◌∷◌ c s) = is_digit (code c) && all_digits s

-- /^\d+$/
unfoldable pub is_number : String → Bool
unfolding all_digits
is_number s = not (s == "") && all_digits s

unfoldable pub default_port : Bool → Number
default_port use_ssl = int (pos (if use_ssl then 443 else 80))

-- the host and the port in what is left of the endpoint
unfoldable pub host_and_port : Bool → String → Option (String × String) → ParsedEndpoint
unfolding is_number default_port
host_and_port use_ssl stripped none = record {
  end_point = stripped;
  port = default_port use_ssl;
  use_ssl = use_ssl;
}
host_and_port use_ssl stripped (some (front, back)) =
    if is_number back
    then record { end_point = front; port = parse_int back; use_ssl = use_ssl }
    else record { end_point = stripped; port = default_port use_ssl; use_ssl = use_ssl }

unfoldable pub parse_endpoint : String → ParsedEndpoint
unfolding without before_slash at_last_colon host_and_port
parse_endpoint raw =
    let use_ssl = is_some (drop_prefix_any_case "https://" raw) in
    let stripped = before_slash (trim_slashes (without "http://" (without "https://" raw))) in
    host_and_port use_ssl stripped (at_last_colon stripped)

-- What `new MinioClient` is given.
pub record ClientOptions : Type 0 where
  pub endpoint : ParsedEndpoint
  pub access_key : String
  pub secret_key : String
  pub region : String

-- `getPresignClient`, with `_client` for a state: a client is its options
unfoldable pub get_presign_client : Config → State (Option ClientOptions) ClientOptions
unfolding parse_endpoint
get_presign_client config (some client) = (client, some client)
get_presign_client config none =
    let client : ClientOptions = record {
      endpoint = parse_endpoint config.blob_s3_endpoint;
      access_key = config.blob_s3_access_key_id;
      secret_key = config.blob_s3_secret_access_key;
      region = config.blob_s3_region;
    } in
    (client, some client)

unfoldable pub presign_blob_put :
    (ClientOptions → String → String → ℕ → String)
    → Config
    → String
    → ℕ
    → State (Option ClientOptions) String
unfolding get_presign_client
presign_blob_put presigned_put_object config hash ttl_seconds s =
    let (client, t) = get_presign_client config s in
    (presigned_put_object client config.blob_s3_bucket (blob_object_key hash) ttl_seconds, t)
