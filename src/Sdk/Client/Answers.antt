-- ===== src/Sdk/Client/Answers.antt =====
-- `request` on each answer of `fetch`.
use Prim.Native.String.{◌++◌}
use code_runner.Prelude.{
  ℕ, String, Option, List, ◌≡◌, refl, trim_slashes, Bool-cases, inl, inr, if◌then◌else◌,
}
use code_runner.Prelude.Json.{Json}
use code_runner.Prelude.Result.{Result, ok, err}
use code_runner.Sdk.Errors.{throw_for_status}
use code_runner.Sdk.Client.{
  HttpRequest, HttpResponse, Body, Thrown, rejected, failed, is_ok, ends_with, answer_of,
  headers_for, request,
}

module _ {ℓ} (W : Type ℓ) (fetch : HttpRequest → W → Result String HttpResponse × W)
    (json_parse : String → Option Json) (sha256_hex : List ℕ → String)
    (injected : List (String × String)) (base_url token : String) (threshold : ℕ) where
  -- the request that goes out
  abbrev pub http_of : String → String → Body → HttpRequest
  http_of method path body = record {
    method = method;
    url = trim_slashes base_url ++ path;
    headers = headers_for W fetch json_parse sha256_hex injected base_url token threshold path body;
    body = body;
  }

  -- the value of an answer, or the error that stands for it
  abbrev pub outcome : String → HttpResponse → Result Thrown (Option Json)
  outcome path res =
      if is_ok res
      then ok (answer_of W fetch json_parse sha256_hex injected base_url token threshold res)
      else err (failed (throw_for_status json_parse res.status res.text (ends_with "/stdin" path)))

  pub request-answered :
      (method path : String) (body : Body) (w : W) (res : HttpResponse) (w' : W)
      → fetch (http_of method path body) w ≡ (ok res, w')
      → request W fetch json_parse sha256_hex injected base_url token threshold method path body w
        ≡ (outcome path res, w')
  unfolding request
  request-answered method path body w res w' h = elim (Bool-cases (is_ok res)) [
    | inl good ↦ rw (h, good) refl
    | inr bad ↦ rw (h, bad) refl
  ]

  pub request-rejected :
      (method path : String) (body : Body) (w : W) (message : String) (w' : W)
      → fetch (http_of method path body) w ≡ (err message, w')
      → request W fetch json_parse sha256_hex injected base_url token threshold method path body w
        ≡ (err (rejected message), w')
  unfolding request
  request-rejected method path body w message w' h = rw h refl
