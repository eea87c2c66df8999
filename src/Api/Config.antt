-- ===== src/Api/Config.antt =====
-- apps/api/src/config.ts: the configuration, read from the environment variables. `parseInt` gives an
-- integer or NaN; integers are exact here, where JavaScript rounds from 2 ^ 53 on.
pub mod Checks
use Prim.Native.Char.{code}
use Prim.Native.String
use mathlib.Core.Bool.{not}
use code_runner.Prelude.{
  ℕ, zero, suc, ◌+◌, ◌-◌, ◌*◌, String, Bool, ◌&&◌, ◌||◌, Option, none, some, List, [], ◌∷◌, ◌==◌,
  leb, eqb, or_default, if◌then◌else◌, show, is_some,
}
use code_runner.Prelude.Int.{ℤ, pos, negsuc, Number, nan, int}
use code_runner.Prelude.Result.{Result, ok, err, ◌>>=◌}

-- JavaScript's white space and line ends
unfoldable pub is_space : ℕ → Bool
is_space c =
    leb 9 c && leb c 13
    || eqb c 32
    || eqb c 0xa0
    || eqb c 0x1680
    || leb 0x2000 c && leb c 0x200a
    || eqb c 0x2028
    || eqb c 0x2029
    || eqb c 0x202f
    || eqb c 0x205f
    || eqb c 0x3000
    || eqb c 0xfeff

abbrev pub is_digit : ℕ → Bool
is_digit c = leb b'0' c && leb c b'9'

-- the run of digits, after some that stand for `n`
unfoldable pub digits_from : ℕ → String → ℕ
digits_from n String.[] = n
digits_from n (String.◌∷◌ c s) =
    let rest = digits_from (n * 10 + (code c - b'0')) s in if is_digit (code c) then rest else n

abbrev negate : ℕ → ℤ
negate zero = pos 0
negate (suc n) = negsuc n

-- the digits behind the sign; NaN if there is none
unfoldable pub unsigned : (ℕ → ℤ) → String → Number
unfolding digits_from
unsigned sign String.[] = nan
unsigned sign (String.◌∷◌ c s) =
    if is_digit (code c) then int (sign (digits_from 0 (String.◌∷◌ c s))) else nan

-- `parseInt(s, 10)`
unfoldable pub parse_int : String → Number
unfolding is_space unsigned
parse_int String.[] = nan
parse_int (String.◌∷◌ c s) =
    if is_space (code c)
    then parse_int s
    else if eqb (code c) b'-'
    then unsigned negate s
    else if eqb (code c) b'+'
    then unsigned pos s
    else unsigned pos (String.◌∷◌ c s)

-- an ASCII letter in lower case
unfoldable pub to_lower : ℕ → ℕ
to_lower c = if leb b'A' c && leb c b'Z' then c + 32 else c

-- The text behind an ASCII prefix that is given in lower case and matched in either.
unfoldable pub drop_prefix_any_case : String → String → Option String
unfolding to_lower
drop_prefix_any_case String.[] s = some s
drop_prefix_any_case (String.◌∷◌ p ps) String.[] = none
drop_prefix_any_case (String.◌∷◌ p ps) (String.◌∷◌ c s) =
    if eqb (code p) (to_lower (code c)) then drop_prefix_any_case ps s else none

pub record Config : Type 0 where
  pub executor_api_token : String
  pub redis_url : String
  pub api_port : Number
  pub languages_dir : String
  pub soketi_host : String
  pub soketi_port : Number
  pub soketi_use_tls : Bool
  pub soketi_app_id : String
  pub soketi_app_key : String
  pub soketi_app_secret : String
  pub enable_channel_auth : Bool
  pub max_queue_depth : Number
  pub max_files_bytes : Number
  pub job_ttl_seconds : Number
  pub blob_store_configured : Bool
  pub blob_s3_endpoint : String
  pub blob_s3_bucket : String
  pub blob_s3_access_key_id : String
  pub blob_s3_secret_access_key : String
  pub blob_s3_region : String
  pub blob_s3_use_ssl : Bool
  pub blob_idle_ttl_seconds : Number
  pub blob_upload_url_ttl_seconds : Number

-- `process.env`, and the directory that `new URL("../../../languages", import.meta.url)` names
module _ (env : String → Option String) (languages : String) where
  -- an unset variable and an empty one are refused alike
  unfoldable pub require_env : String → Result String String
  require_env name =
      if or_default (env name) "" == ""
      then err (
          String.◌++◌ "Missing required environment variable: "
            (String.◌++◌ name ". Check your .env file."))
      else ok (or_default (env name) "")

  -- `process.env[a] ?? process.env[b] ?? … ?? d`
  unfoldable pub first_set : List String → String → String
  first_set [] d = d
  first_set (name ∷ names) d = or_default (env name) (first_set names d)

  unfoldable pub load_config : Result String Config
  unfolding require_env first_set parse_int drop_prefix_any_case
  load_config = do
    executor_api_token ← require_env "EXECUTOR_API_TOKEN"
    redis_url ← require_env "REDIS_URL"
    let endpoint =
        first_set
          ("BLOB_S3_PUBLIC_ENDPOINT" ∷ "ARTIFACT_S3_PUBLIC_ENDPOINT" ∷ "AWS_ENDPOINT_URL_S3"
            ∷ "ARTIFACT_S3_ENDPOINT" ∷ [])
          ""
    let bucket = first_set ("BLOB_S3_BUCKET" ∷ "ARTIFACT_S3_BUCKET" ∷ "BUCKET_NAME" ∷ []) ""
    let access = first_set ("ARTIFACT_S3_ACCESS_KEY_ID" ∷ "AWS_ACCESS_KEY_ID" ∷ []) ""
    let secret = first_set ("ARTIFACT_S3_SECRET_ACCESS_KEY" ∷ "AWS_SECRET_ACCESS_KEY" ∷ []) ""
    ok (record {
      executor_api_token = executor_api_token;
      redis_url = redis_url;
      api_port = parse_int (or_default (env "API_PORT") "8080");
      languages_dir = or_default (env "LANGUAGES_DIR") languages;
      soketi_host = or_default (env "SOKETI_HOST") "localhost";
      soketi_port = parse_int (or_default (env "SOKETI_PORT") "6001");
      soketi_use_tls = or_default (env "SOKETI_USE_TLS") "" == "true";
      soketi_app_id = or_default (env "SOKETI_APP_ID") "code-runner";
      soketi_app_key = or_default (env "SOKETI_APP_KEY") "code-runner-key";
      soketi_app_secret = or_default (env "SOKETI_APP_SECRET") "";
      enable_channel_auth = or_default (env "ENABLE_CHANNEL_AUTH") "" == "true";
      max_queue_depth = parse_int (or_default (env "MAX_QUEUE_DEPTH") "256");
      max_files_bytes = parse_int (or_default (env "MAX_FILES_BYTES") (show (8 * 1024 * 1024)));
      job_ttl_seconds = parse_int (or_default (env "JOB_TTL") "3600");
      blob_store_configured =
          not (endpoint == "") && not (bucket == "") && not (access == "") && not (secret == "");
      blob_s3_endpoint = endpoint;
      blob_s3_bucket = bucket;
      blob_s3_access_key_id = access;
      blob_s3_secret_access_key = secret;
      blob_s3_region = first_set ("ARTIFACT_S3_REGION" ∷ "AWS_REGION" ∷ []) "us-east-1";
      blob_s3_use_ssl = is_some (drop_prefix_any_case "https://" endpoint);
      blob_idle_ttl_seconds = parse_int (or_default (env "BLOB_IDLE_TTL") (show (24 * 60 * 60)));
      blob_upload_url_ttl_seconds =
          parse_int (or_default (env "BLOB_UPLOAD_URL_TTL") (show (15 * 60)));
    })
