-- ===== src/Sdk/ChannelAuth/Agreement.antt =====
-- The client's authorizer and the gateway's route give the same answer.
use code_runner.Prelude.{
  String, Bool, true, false, if◌then◌else◌, Option, some, ◌==◌, ◌≡◌, refl, starts_with, Bool-cases,
  inl, inr,
}
use code_runner.Prelude.Json.{Json, str, obj, end, field, member, error_body}
use code_runner.Api.Http.{Response}
use code_runner.Prelude.Result.{Result, ok, err}
use code_runner.Api.ChannelAuth.{channel_auth}
use code_runner.Sdk.ChannelAuth.{sign_channel_auth}

module _ (hmac_hex : String → String → String) (app_key app_secret : String)
    (authorize_channel : Json → String → Result String Json) (valid : String → String → Bool) where
  abbrev asked : String → String → Option Json
  asked socket_id channel_name =
      some (obj (field "socket_id" (str socket_id) (field "channel_name" (str channel_name) end)))

  -- What Pusher does: it signs where the socket id and the channel pass its validation, and throws
  -- where they do not.
  pub record Signs : Type 0 where
    pub accepted :
        (s c : String)
        → valid s c ≡ true
        → authorize_channel (str s) c
          ≡ ok (obj (field "auth" (str (sign_channel_auth hmac_hex app_key app_secret s c)) end))
    pub refused :
        (s c : String)
        → valid s c ≡ false
        → (message : String) × (authorize_channel (str s) c ≡ err message)

  -- the gateway's answer for the channel of a job
  abbrev pub answer : String → String → String → Response
  answer s c auth =
      if valid s c
      then record { status = 200; body = obj (field "auth" (str auth) end) }
      else record { status = 500; body = error_body "Channel authorization failed" }

  signed :
      (s c : String)
      → Signs
      → starts_with c "private-run-" ≡ true
      → (s == "") ≡ false
      → (c == "") ≡ false
      → channel_auth authorize_channel (asked s c)
        ≡ answer s c (sign_channel_auth hmac_hex app_key app_secret s c)
  unfolding channel_auth member
  signed s c signs job n1 n2 = elim (Bool-cases (valid s c)) [
    | inl good ↦ rw (n1, n2, job, good) (rw (signs.accepted s c good) refl)
    | inr bad ↦
        let (message, thrown) = signs.refused s c bad in rw (n1, n2, job, bad) (rw thrown refl)
  ]
