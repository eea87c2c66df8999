-- ===== src/Api/Presign/Endpoint.antt =====
-- An endpoint is taken apart into what it was put together from.
use Prim.Native.Char.{Char, code}
use Prim.Native.String.{◌++◌}
use text.Mathlib.TextLemmas.{nil-append, cons-append, append-nil}
use code_runner.Prelude.{
  ℕ, String, Bool, true, ◌&&◌, none, some, ◌==◌, not, ◌≡◌, ◌≢◌, refl, sym, ap, ◌∙◌, arith, eqb,
  trim_slashes, Bool-cases, inl, inr,
}
use code_runner.Api.Config.{is_digit, drop_prefix_any_case, to_lower}
use code_runner.Api.Presign.{before_slash, at_last_colon, all_digits}

-- the text has no character with the code
abbrev pub lacks : ℕ → String → Bool
lacks n String.[] = true
lacks n (String.◌∷◌ c s) = not (eqb (code c) n) && lacks n s

pub before_slash-trim_slashes : (s : String) → before_slash (trim_slashes s) ≡ before_slash s
unfolding before_slash trim_slashes
before_slash-trim_slashes String.[] = refl
before_slash-trim_slashes (String.◌∷◌ c s) =
    elim (Bool-cases (trim_slashes s == "" && eqb (code c) b'/')) [
      | inl gone ↦ let slash : eqb (code c) b'/' ≡ true = ground arith in rw (gone, slash) refl
      | inr kept ↦ rw kept (ground (arith, before_slash-trim_slashes s))
    ]

pub before_slash-append :
    (a s : String) → lacks b'/' a ≡ true → before_slash (a ++ s) ≡ a ++ before_slash s
unfolding before_slash
before_slash-append String.[] s h =
    ap before_slash (nil-append s) ∙ sym (nil-append (before_slash s))
before_slash-append (String.◌∷◌ c a) s h =
    ground (arith, before_slash-append a s, cons-append c a s, cons-append c a (before_slash s))

pub lacks-append : (n : ℕ) (a b : String) → lacks n (a ++ b) ≡ lacks n a && lacks n b
lacks-append n String.[] b = rw nil-append refl
lacks-append n (String.◌∷◌ c a) b = rw cons-append (ground (arith, lacks-append n a b))

at_last_colon_of_lacks : (s : String) → lacks b':' s ≡ true → at_last_colon s ≡ none
unfolding at_last_colon
at_last_colon_of_lacks String.[] h = refl
at_last_colon_of_lacks (String.◌∷◌ c s) h = ground (arith, at_last_colon_of_lacks s)

-- the character of ":"
abbrev colon : Char
colon = ":"

colon_cons : (b : String) → ":" ++ b ≡ String.◌∷◌ colon b
colon_cons b = cons-append colon String.[] b ∙ ap (String.◌∷◌ colon) (nil-append b)

pub at_last_colon-append :
    (a b : String) → lacks b':' b ≡ true → at_last_colon (a ++ (":" ++ b)) ≡ some (a, b)
unfolding at_last_colon
at_last_colon-append String.[] b h =
    let whole : String.[] ++ (":" ++ b) ≡ String.◌∷◌ colon b =
      nil-append (":" ++ b) ∙ colon_cons b in
    rw whole (ground (arith, at_last_colon_of_lacks b))
at_last_colon-append (String.◌∷◌ c a) b h =
    rw (cons-append c a (":" ++ b)) (ground (arith, at_last_colon-append a b))

-- digits are neither slashes nor colons
pub digits-lacks :
    (s : String) → all_digits s ≡ true → (lacks b'/' s ≡ true) × (lacks b':' s ≡ true)
unfolding all_digits
digits-lacks String.[] h = (refl, refl)
digits-lacks (String.◌∷◌ c s) h = ground (arith, digits-lacks s)

abbrev is_lowered : String → Bool
is_lowered String.[] = true
is_lowered (String.◌∷◌ c s) = eqb (code c) (to_lower (code c)) && is_lowered s

-- what a prefix in front of both leaves of the match
pub drop_prefix_any_case-append :
    (p q s : String)
    → is_lowered p ≡ true
    → drop_prefix_any_case (p ++ q) (p ++ s) ≡ drop_prefix_any_case q s
unfolding drop_prefix_any_case
drop_prefix_any_case-append String.[] q s h =
    ap (λ z. drop_prefix_any_case z (String.[] ++ s)) (nil-append q)
    ∙ ap (drop_prefix_any_case q) (nil-append s)
drop_prefix_any_case-append (String.◌∷◌ c p) q s h =
    ap (λ z. drop_prefix_any_case z (String.◌∷◌ c p ++ s)) (cons-append c p q)
    ∙ ap (drop_prefix_any_case (String.◌∷◌ c (p ++ q))) (cons-append c p s)
    ∙ ground (arith, drop_prefix_any_case-append p q s)

pub drop_prefix_any_case-whole :
    (p s : String) → is_lowered p ≡ true → drop_prefix_any_case p (p ++ s) ≡ some s
unfolding drop_prefix_any_case
drop_prefix_any_case-whole p s h =
    ap (λ z. drop_prefix_any_case z (p ++ s)) (sym (append-nil p))
    ∙ drop_prefix_any_case-append p String.[] s h

-- A host without a slash, and a colon and a digit behind it, do not begin with the prefix.
abbrev pub IsBlocked : String → Type 0
IsBlocked p =
    (host : String) (c : Char) (rest : String)
    → lacks b'/' host ≡ true
    → is_digit (code c) ≡ true
    → drop_prefix_any_case p (host ++ (":" ++ (String.◌∷◌ c rest))) ≡ none

-- the two shapes of such a text
no_host : (t : String) → String.[] ++ (":" ++ t) ≡ String.◌∷◌ colon t
no_host t = nil-append (":" ++ t) ∙ colon_cons t

slash-IsBlocked : (x : Char) (p : String) → code x ≡ b'/' → IsBlocked (String.◌∷◌ x p)
unfolding drop_prefix_any_case to_lower
slash-IsBlocked x p e String.[] c rest h d =
    ap (drop_prefix_any_case (String.◌∷◌ x p)) (no_host (String.◌∷◌ c rest)) ∙ ground (arith, e)
slash-IsBlocked x p e (String.◌∷◌ y host) c rest h d =
    ap (drop_prefix_any_case (String.◌∷◌ x p)) (cons-append y host (":" ++ (String.◌∷◌ c rest)))
    ∙ ground (arith, e, h)

colon-IsBlocked :
    (x y : Char) (p : String) → code y ≡ b'/' → IsBlocked (String.◌∷◌ x (String.◌∷◌ y p))
unfolding drop_prefix_any_case to_lower
colon-IsBlocked x y p e String.[] c rest h d =
    ap (drop_prefix_any_case (String.◌∷◌ x (String.◌∷◌ y p))) (no_host (String.◌∷◌ c rest))
    ∙ ground (arith, e, d)
colon-IsBlocked x y p e (String.◌∷◌ z host) c rest h d =
    ap (drop_prefix_any_case (String.◌∷◌ x (String.◌∷◌ y p)))
      (cons-append z host (":" ++ (String.◌∷◌ c rest)))
    ∙ ground (arith, h, slash-IsBlocked y p e host c rest, d)

cons-IsBlocked : (x : Char) (p : String) → code x ≢ b':' → IsBlocked p → IsBlocked (String.◌∷◌ x p)
unfolding drop_prefix_any_case to_lower
cons-IsBlocked x p e blocked String.[] c rest h d =
    ap (drop_prefix_any_case (String.◌∷◌ x p)) (no_host (String.◌∷◌ c rest)) ∙ ground (arith, e)
cons-IsBlocked x p e blocked (String.◌∷◌ z host) c rest h d =
    ap (drop_prefix_any_case (String.◌∷◌ x p)) (cons-append z host (":" ++ (String.◌∷◌ c rest)))
    ∙ ground (arith, h, blocked host c rest, d)

pub http-IsBlocked : IsBlocked "http://"
http-IsBlocked =
    cons-IsBlocked "h" "ttp://" (λ e. cc e)
      (cons-IsBlocked "t" "tp://" (λ e. cc e)
        (cons-IsBlocked "t" "p://" (λ e. cc e)
          (cons-IsBlocked "p" "://" (λ e. cc e) (colon-IsBlocked ":" "/" "/" refl))))
