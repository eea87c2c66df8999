-- ===== src/Api/ChannelAuth.antt =====
-- apps/api/src/channelAuth.ts: POST /v1/channel-auth, which the app registers only with
-- ENABLE_CHANNEL_AUTH. `authorizeChannel` of the pusher client is a parameter, of the socket id as it
-- comes and of the channel's name; its error is the message.
use code_runner.Prelude.{
  String, Bool, false, ◌||◌, not, Option, none, some, starts_with, if◌then◌else◌,
}
use code_runner.Prelude.Json.{Json, null, str, error_body, member, truthy, or_empty}
use code_runner.Prelude.Result.{Result, ok, err}
use code_runner.Api.Http.{Response}

abbrev pub refuse : String → Response
refuse message = record { status = 403; body = error_body message }

authorized : Result String Json → Response
authorized (ok answer) = record { status = 200; body = answer }
authorized (err message) = record { status = 500; body = error_body "Channel authorization failed" }

-- `app.onError`, after a TypeError
abbrev pub internal_error : Response
internal_error = record { status = 500; body = error_body "Internal server error" }

-- a missing field is undefined, which is not truthy
abbrev is_truthy : Option Json → Bool
is_truthy none = false
is_truthy (some v) = truthy v

module _ (authorize_channel : Json → String → Result String Json) where
  -- from `startsWith` on, which only a text has
  authorized_for : Json → Json → Response
  unfolding authorized
  authorized_for socket_id (str channel_name) =
      if not (starts_with channel_name "private-run-")
      then refuse "Only private-run-<jobId> channels can be authorized here"
      else authorized (authorize_channel socket_id channel_name)
  authorized_for socket_id _ = internal_error

  checked : Option Json → Option Json → Response
  unfolding authorized_for
  checked socket_id channel_name =
      if not (is_truthy socket_id) || not (is_truthy channel_name)
      then record {
        status = 400;
        body = error_body "Missing required fields: socket_id, channel_name";
      }
      else authorized_for (or_empty socket_id) (or_empty channel_name)

  -- `none` is a body that is no JSON; null has no fields to read
  unfoldable pub channel_auth : Option Json → Response
  unfolding checked member
  channel_auth none = record { status = 400; body = error_body "Invalid JSON body" }
  channel_auth (some null) = internal_error
  channel_auth (some body) =
      checked (member "socket_id" (some body)) (member "channel_name" (some body))
