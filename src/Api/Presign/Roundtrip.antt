-- ===== src/Api/Presign/Roundtrip.antt =====
-- What is put together as an endpoint is taken apart into the same parts.
use Prim.Native.String.{◌++◌}
use text.Mathlib.TextLemmas.{append-nil, append_assoc, cons-append}
use code_runner.Prelude.{
  ℕ, String, Bool, true, false, ◌&&◌, none, some, is_some, ◌≡◌, refl, sym, ap, ◌∙◌, arith,
  trim_slashes, show, or_default,
}
use code_runner.Prelude.Int.{pos, int}
use code_runner.Api.Config.{drop_prefix_any_case, to_lower}
use code_runner.Api.Presign.{
  without, before_slash, at_last_colon, all_digits, host_and_port, parse_endpoint,
}
use code_runner.Api.Presign.Digits.{show-Writes, parse_int-Writes, is_number-Writes}
use code_runner.Api.Presign.Endpoint.{
  lacks, before_slash-trim_slashes, before_slash-append, lacks-append, at_last_colon-append,
  digits-lacks, drop_prefix_any_case-append, drop_prefix_any_case-whole, http-IsBlocked,
}

abbrev pub scheme : Bool → String
scheme true = "https://"
scheme false = "http://"

-- the endpoint behind its scheme
abbrev pub location : String → ℕ → String → String
location host port tail = host ++ (":" ++ (show port ++ tail))

-- no scheme is taken off a location
location-blocked :
    (host : String) (port : ℕ) (tail : String)
    → lacks b'/' host ≡ true
    → drop_prefix_any_case "http://" (location host port tail) ≡ none
unfolding all_digits
location-blocked host port tail h =
    let w = show-Writes port in
    let first : show port ++ tail ≡ String.◌∷◌ w.head (w.tail ++ tail) =
      ap (λ z. z ++ tail) w.whole ∙ cons-append w.head w.tail tail in
    ap (λ z. drop_prefix_any_case "http://" (host ++ (":" ++ z))) first
    ∙ http-IsBlocked host w.head (w.tail ++ tail) h (ground (arith, w.digits, w.whole))

https_of_http : (s : String) → drop_prefix_any_case "https://" ("http://" ++ s) ≡ none
unfolding drop_prefix_any_case to_lower
https_of_http s =
    ap (drop_prefix_any_case "https://") (append_assoc "http" "://" s)
    ∙ drop_prefix_any_case-append "http" "s://" ("://" ++ s) refl
    ∙ ap (drop_prefix_any_case "s://") (cons-append ":" "//" s)

stripped-location :
    (host : String) (port : ℕ) (tail : String)
    → lacks b'/' host ≡ true
    → before_slash tail ≡ ""
    → before_slash (trim_slashes (location host port tail)) ≡ host ++ (":" ++ show port)
stripped-location host port tail h k =
    before_slash-trim_slashes (location host port tail)
    ∙ ap before_slash regrouped
    ∙ before_slash-append authority tail lacking
    ∙ ap (λ z. authority ++ z) k
    ∙ append-nil authority
  where
    authority : String
    authority = host ++ (":" ++ show port)

    regrouped : location host port tail ≡ authority ++ tail
    regrouped = sym (
        append_assoc host (":" ++ show port) tail
        ∙ ap (λ z. host ++ z) (append_assoc ":" (show port) tail))

    lacking : lacks b'/' authority ≡ true
    lacking =
        lacks-append b'/' host (":" ++ show port)
        ∙ ap (λ b. lacks b'/' host && b) (lacks-append b'/' ":" (show port))
        ∙ ground (arith, h, (digits-lacks (show port) (show-Writes port).digits).0)

parsed :
    (tls : Bool) (host : String) (port : ℕ) (tail raw : String)
    → lacks b'/' host ≡ true
    → before_slash tail ≡ ""
    → is_some (drop_prefix_any_case "https://" raw) ≡ tls
    → without "http://" (without "https://" raw) ≡ location host port tail
    → parse_endpoint raw ≡ record { end_point = host; port = int (pos port); use_ssl = tls }
unfolding parse_endpoint host_and_port
parsed tls host port tail raw h k a b =
    let w = show-Writes port in
    let split : at_last_colon (host ++ (":" ++ show port)) ≡ some (host, show port) =
      at_last_colon-append host (show port) (digits-lacks (show port) w.digits).1 in
    rw
      (
        a,
        b,
        stripped-location host port tail h k,
        split,
        is_number-Writes port (show port) w,
        parse_int-Writes port (show port) w,
      )
      refl

-- An endpoint that is put together from a scheme, a host without a slash, a port and a tail that is
-- empty or begins with a slash is taken apart into that host and that port, with SSL exactly for https.
pub parse_endpoint-location :
    (tls : Bool) (host : String) (port : ℕ) (tail : String)
    → lacks b'/' host ≡ true
    → before_slash tail ≡ ""
    → parse_endpoint (scheme tls ++ location host port tail)
      ≡ record { end_point = host; port = int (pos port); use_ssl = tls }
unfolding without to_lower
parse_endpoint-location true host port tail h k =
    let taken = drop_prefix_any_case-whole "https://" (location host port tail) refl in
    parsed true host port tail ("https://" ++ location host port tail) h k (ap is_some taken) (
      ap (λ o. without "http://" (or_default o ("https://" ++ location host port tail))) taken
      ∙ ap (λ o. or_default o (location host port tail)) (location-blocked host port tail h))
parse_endpoint-location false host port tail h k =
    let kept = https_of_http (location host port tail) in
    parsed false host port tail ("http://" ++ location host port tail) h k (ap is_some kept) (
      ap (λ o. without "http://" (or_default o ("http://" ++ location host port tail))) kept
      ∙ ap (λ o. or_default o ("http://" ++ location host port tail))
          (drop_prefix_any_case-whole "http://" (location host port tail) refl))
