-- ===== src/Tests/Example.antt =====
-- The backend of the example application at concrete inputs.
use code_runner.Prelude.{
  ℕ, ◌+◌, ◌||◌, String, Option, none, some, List, [], ◌≡◌, ◌≢◌, refl, ◌==◌, if◌then◌else◌,
}
use code_runner.Prelude.Json.{Json, str, obj, field, end, error_body}
use code_runner.Prelude.Result.{Result, ok, err}
use code_runner.Sdk.Client.{HttpRequest, HttpResponse}
use code_runner.Example.{
  ClientOptions, Server, AuthRequest, stdin, serve, read_auth_params, channel_auth,
}
use code_runner.Example.Relay.{relayed, serve-relayed}
use code_runner.Example.Authorization.{IsSigned, channel_auth-IsSigned}

-- the gateway counts its calls and refuses every token
abbrev refusal : HttpResponse
refusal = record { status = 401; text = "refused" }

abbrev refuse : HttpRequest → ℕ → Result String HttpResponse × ℕ
refuse req w = (ok refusal, w + 1)

abbrev parse_refusal : String → Option Json
parse_refusal text = some (error_body "Unauthorized")

abbrev digest : List ℕ → String
digest bytes = "00"

abbrev hmac : String → String → String
hmac secret text = "ff"

abbrev variables : String → Option String
variables name =
    if name == "SOKETI_APP_KEY" || name == "SOKETI_APP_SECRET" then some "key" else none

abbrev options : ClientOptions
options = record { base_url = "http://gateway"; token = "old" }

abbrev server : Server ℕ
server = record { world = 0; client = some options; authorizer = none }

serve-relayed_example :
    ((serve ℕ refuse parse_refusal digest [] hmac "TypeError" variables
        (stdin "j" (ok "x"))
        server).0.status
      ≡ relayed refusal)
    × ((serve ℕ refuse parse_refusal digest [] hmac "TypeError" variables
          (stdin "j" (ok "x"))
          server).1
        ≡ record server { world = 1 })
    × ((serve ℕ refuse parse_refusal digest [] hmac "TypeError" variables
          (stdin "j" (ok "x"))
          server).0.status
        ≢ 401)
serve-relayed_example =
    serve-relayed ℕ refuse parse_refusal digest [] hmac "TypeError" variables options server refl
      (stdin "j" (ok "x")) refusal 1 tt refl

abbrev asked : AuthRequest
asked = record {
  content_type = some "application/json";
  json = ok (obj (field "socket_id" (str "1.2") (field "channel_name" (str "private-run-j") end)));
  form_data = err "no form";
}

authorized :
    (channel_auth ℕ refuse parse_refusal digest [] hmac "TypeError" variables asked server).0.status
    ≡ 200
unfolding channel_auth code_runner.Sdk.ChannelAuth.create_channel_authorizer
    code_runner.Prelude.Json.member code_runner.Example.has_text
authorized = refl

channel_auth-IsSigned_example :
    IsSigned hmac
      (read_auth_params ℕ refuse parse_refusal digest [] hmac "TypeError" variables asked)
      (channel_auth ℕ refuse parse_refusal digest [] hmac "TypeError" variables asked server)
channel_auth-IsSigned_example =
    channel_auth-IsSigned ℕ refuse parse_refusal digest [] hmac "TypeError" variables asked server
      authorized
