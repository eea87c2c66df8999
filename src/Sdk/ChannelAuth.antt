-- ===== src/Sdk/ChannelAuth.antt =====
-- packages/code-runner-sdk-node/src/channelAuth.ts. The hexadecimal HMAC with SHA-256 is a
-- parameter, of the secret and the text.
pub mod Agreement
use Prim.Native.String.{◌++◌}
use code_runner.Prelude.{String, not, starts_with, if◌then◌else◌}
use code_runner.Prelude.Result.{Result, ok, err}

module _ (hmac_hex : String → String → String) (app_key app_secret : String) where
  -- the `auth` of the response
  unfoldable pub sign_channel_auth : String → String → String
  sign_channel_auth socket_id channel_name =
      app_key ++ (":" ++ hmac_hex app_secret (socket_id ++ (":" ++ channel_name)))

  unfoldable pub create_channel_authorizer : String → String → Result String String
  unfolding sign_channel_auth
  create_channel_authorizer socket_id channel_name =
      if not (starts_with channel_name "private-run-")
      then err (
          "Refusing to authorize channel \""
          ++ (channel_name ++ "\": only private-run-<jobId> channels are allowed"))
      else ok (sign_channel_auth socket_id channel_name)
