-- ===== src/Example/Authorization.antt =====
-- What POST /api/channel-auth signs.
use code_runner.Prelude.{
  ℕ, String, true, Option, some, List, ◌≡◌, ◌⊎◌, refl, ap, ◌∙◌, ◌==◌, ◌||◌, not, starts_with,
  or_default, includes, Bool-cases, Option-cases, inl, inr, arith,
}
use code_runner.Prelude.Json.{Json, null, bool, num, negative, str, arr, obj, field, end, truthy}
use code_runner.Prelude.Result.{Result, ok, err}
use code_runner.Api.Http.{Response}
use code_runner.Sdk.Errors.{to_text}
use code_runner.Sdk.Client.{HttpRequest, HttpResponse}
use code_runner.Sdk.ChannelAuth.{sign_channel_auth, create_channel_authorizer}
use code_runner.Example
use code_runner.Example.{
  Server, AuthParams, AuthForm, AuthRequest, AuthorizerOptions, missing_text, required, has_text,
  params_of, form_params, read_auth_params, signed, authorize, checked, get_channel_authorizer,
  channel_auth,
}
use code_runner.Example.Replies.{Caught, error_response}

-- A signature of both parameters with the keys that the server holds.
pub record IsSigned {ℓ} {W : Type ℓ} (hmac_hex : String → String → String)
    (read : Result Caught AuthParams) (out : Response × Server W) : Type ℓ where
  pub params : AuthParams
  pub channel_name : String
  pub found : read ≡ ok params
  pub socket : truthy params.socket_id ≡ true
  pub text : has_text params.socket_id ≡ true
  pub channel : params.channel_name ≡ str channel_name
  pub of_run : starts_with channel_name "private-run-" ≡ true
  pub keys : AuthorizerOptions
  pub held : out.1.authorizer ≡ some keys
  pub body :
      out.0.body
      ≡ obj (
          field "auth"
            (str (
              sign_channel_auth hmac_hex keys.app_key keys.app_secret
                (to_text params.socket_id)
                channel_name))
            end)

required_cases :
    (env : String → Option String) (name : String)
    → ((v : String) × (required env name ≡ ok v))
      ⊎ (required env name ≡ err (Caught.error (missing_text name)))
unfolding required
required_cases env name = elim (Option-cases (env name)) [
  | inl e ↦ inr (rw (e, required) refl)
  | inr (v, e) ↦ elim (Bool-cases (v == "")) [
    | inl missing ↦ inr (rw (e, required, missing) refl)
    | inr there ↦ inl (v, rw (e, required, there) refl)
  ]
]

module _ {ℓ} (W : Type ℓ) (fetch : HttpRequest → W → Result String HttpResponse × W)
    (json_parse : String → Option Json) (sha256_hex : List ℕ → String)
    (injected : List (String × String)) (hmac_hex : String → String → String)
    (type_error_text : String) (env : String → Option String) where
  abbrev authorizing : AuthRequest → Server W → Response × Server W
  authorizing = channel_auth W fetch json_parse sha256_hex injected hmac_hex type_error_text env

  abbrev checking : Result Caught AuthParams → Server W → Response × Server W
  checking = checked W fetch json_parse sha256_hex injected hmac_hex type_error_text env

  abbrev holding : Server W → Result Caught AuthorizerOptions × Server W
  holding =
      get_channel_authorizer W fetch json_parse sha256_hex injected hmac_hex type_error_text env

  -- the two keys are there and kept, or what is missing is no success
  get_channel_authorizer_cases :
      (s : Server W)
      → ((a : AuthorizerOptions) × ((holding s).0 ≡ ok a) × ((holding s).1.authorizer ≡ some a))
        ⊎ ((message : String) × ((holding s).0 ≡ err (Caught.error message)))
  unfolding get_channel_authorizer
  get_channel_authorizer_cases s = elim (Option-cases s.authorizer) [
    | inr (a, e) ↦ inl (a, rw e refl, rw e refl)
    | inl e ↦ elim (required_cases env "SOKETI_APP_KEY") [
      | inr missing ↦ inr (missing_text "SOKETI_APP_KEY", rw (e, missing) refl)
      | inl (key, found) ↦ elim (required_cases env "SOKETI_APP_SECRET") [
        | inr missing ↦ inr (missing_text "SOKETI_APP_SECRET", rw (e, found, missing) refl)
        | inl (secret, found') ↦ inl (
          record { app_key = key; app_secret = secret },
          rw (e, found, found') refl,
          rw (e, found, found') refl,
        )
      ]
    ]
  ]

  abbrev Held : Result Caught AuthorizerOptions × Server W → Type 0
  Held (r, s) =
      ((a : AuthorizerOptions) × (r ≡ ok a) × (s.authorizer ≡ some a))
      ⊎ ((message : String) × (r ≡ err (Caught.error message)))

  abbrev authorizes : AuthParams → Result Caught AuthorizerOptions × Server W → Response × Server W
  authorizes = authorize W fetch json_parse sha256_hex injected hmac_hex type_error_text env

  -- the answer with the keys `a`
  abbrev answering : AuthorizerOptions → Json → Json → Response
  answering =
      Example.authorizing W fetch json_parse sha256_hex injected hmac_hex type_error_text env

  -- What the answer of the authorizer shows when its status is 200.
  record IsAnswered (a : AuthorizerOptions) (socket channel : Json) : Type 0 where
    channel_name : String
    same : channel ≡ str channel_name
    text : has_text socket ≡ true
    of_run : starts_with channel_name "private-run-" ≡ true
    body :
        (answering a socket channel).body
        ≡ obj (
            field "auth"
              (str
                (sign_channel_auth hmac_hex a.app_key a.app_secret (to_text socket) channel_name))
              end)

  authorizing-IsAnswered :
      (a : AuthorizerOptions) (socket channel : Json)
      → (answering a socket channel).status ≡ 200
      → IsAnswered a socket channel
  unfolding Example.authorizing signed error_response create_channel_authorizer
  authorizing-IsAnswered a socket (str c) h = elim (Bool-cases (starts_with c "private-run-")) [
    | inl other ↦ elim (Bool-cases (has_text socket)) [
      | inl text ↦ record {
        channel_name = c;
        same = refl;
        text = text;
        of_run = other;
        body = rw (other, text) refl;
      }
      | inr no_text ↦ absurd (ground (arith, rw (other, no_text) at h))
    ]
    | inr other ↦ absurd (ground (arith, rw other at h))
  ]
  authorizing-IsAnswered a socket null h = absurd (ground (arith, h))
  authorizing-IsAnswered a socket (bool b) h = absurd (ground (arith, h))
  authorizing-IsAnswered a socket (num n) h = absurd (ground (arith, h))
  authorizing-IsAnswered a socket (negative n) h = absurd (ground (arith, h))
  authorizing-IsAnswered a socket (arr items) h = absurd (ground (arith, h))
  authorizing-IsAnswered a socket (obj fields) h = absurd (ground (arith, h))

  authorize-IsSigned :
      (p : AuthParams) (held : Result Caught AuthorizerOptions × Server W)
      → Held held
      → truthy p.socket_id ≡ true
      → (authorizes p held).0.status ≡ 200
      → IsSigned hmac_hex (ok p) (authorizes p held)
  unfolding authorize error_response
  authorize-IsSigned p (err x, s) (inl (a, e, k)) named h = absurd (cc (e))
  authorize-IsSigned p (err x, s) (inr (m, e)) named h = absurd (ground (arith, e, h))
  authorize-IsSigned p (ok a, s) (inr (m, e)) named h = absurd (cc (e))
  authorize-IsSigned p (ok a, s) (inl (b, e, k)) named h =
      let answered = authorizing-IsAnswered a p.socket_id p.channel_name h in
      record {
        params = p;
        channel_name = answered.channel_name;
        found = refl;
        socket = named;
        text = answered.text;
        channel = answered.same;
        of_run = answered.of_run;
        keys = a;
        held = k ∙ ap some (ground (arith, e));
        body = answered.body;
      }

  -- a request that cannot be read is an error of the server
  abbrev Unread : Result Caught AuthParams → Type 0
  Unread r = (e : Caught) → r ≡ err e → (error_response type_error_text e).status ≡ 500

  params_of-Unread :
      (json : Result String Json)
      → Unread (params_of W fetch json_parse sha256_hex injected hmac_hex type_error_text env json)
  unfolding params_of error_response
  params_of-Unread (err m) e h = ground (arith, h)
  params_of-Unread (ok null) e h = ground (arith, h)
  params_of-Unread (ok (bool b)) e h = cc (h)
  params_of-Unread (ok (num n)) e h = cc (h)
  params_of-Unread (ok (negative n)) e h = cc (h)
  params_of-Unread (ok (str s)) e h = cc (h)
  params_of-Unread (ok (arr items)) e h = cc (h)
  params_of-Unread (ok (obj fields)) e h = cc (h)

  form_params-Unread :
      (form : Result String AuthForm)
      → Unread
          (form_params W fetch json_parse sha256_hex injected hmac_hex type_error_text env form)
  unfolding form_params error_response
  form_params-Unread (err m) e h = ground (arith, h)
  form_params-Unread (ok f) e h = cc (h)

  read_auth_params-Unread :
      (req : AuthRequest)
      → Unread
          (read_auth_params W fetch json_parse sha256_hex injected hmac_hex type_error_text env req)
  unfolding read_auth_params
  read_auth_params-Unread req e h =
      elim (Bool-cases (includes (or_default req.content_type "") "application/json")) [
        | inl json ↦ params_of-Unread req.json e (rw json at h)
        | inr form ↦ form_params-Unread req.form_data e (rw form at h)
      ]

  checked-IsSigned :
      (r : Result Caught AuthParams) (s : Server W)
      → Unread r
      → (checking r s).0.status ≡ 200
      → IsSigned hmac_hex r (checking r s)
  unfolding checked
  checked-IsSigned (err e) s unread h = absurd (ground (arith, h, unread e refl))
  checked-IsSigned (ok p) s unread h =
      elim (Bool-cases (not (truthy p.socket_id) || not (truthy p.channel_name))) [
        | inl missing ↦ absurd (ground (arith, rw missing at h))
        | inr full ↦
            let named : truthy p.socket_id ≡ true = ground (arith, full) in
            rw full (
              authorize-IsSigned p (holding s) (get_channel_authorizer_cases s) named
                (rw full at h))
      ]

  -- Whatever the request and whatever has been served before: where the route answers 200, its body
  -- is the signature, with the keys that the server holds, of the text of the socket id and of the
  -- name of a channel of a run, as the request gave them. The channel is a text with the prefix of
  -- runs; the socket id of a JSON body is any value that is not falsy and that has a text.
  pub channel_auth-IsSigned :
      (req : AuthRequest) (s : Server W)
      → (authorizing req s).0.status ≡ 200
      → IsSigned hmac_hex
          (read_auth_params W fetch json_parse sha256_hex injected hmac_hex type_error_text env req)
          (authorizing req s)
  unfolding channel_auth
  channel_auth-IsSigned req s h = checked-IsSigned _ s (read_auth_params-Unread req) h
