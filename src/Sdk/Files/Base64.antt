-- ===== src/Sdk/Files/Base64.antt =====
-- The gateway takes what the client encodes: the base64 of a buffer passes its check and counts with
-- the buffer's own length.
use Prim.Native.Char.{Char, code}
use Prim.Native.String.{◌++◌}
use text.Mathlib.TextLemmas.{nil-append, cons-append}
use code_runner.Prelude.{
  ℕ, zero, suc, ◌+◌, ◌*◌, ◌/◌, ◌%◌, ◌<◌, String, Bool, true, ◌&&◌, List, [], ◌∷◌, ◌≡◌, refl, ap,
  ◌∙◌, arith, length, ltb,
}
use code_runner.Prelude.Result.{ok}
use code_runner.Contract.{Encoding}
use code_runner.Api.Files.{
  is_base64_char, is_padding, base64_re, body_length, decoded_length, utf16_length, check_content,
  check_file, check_source, sanitize_workspace_path,
}
use code_runner.Sdk.Files.{binary, to_file_input, char_at, alphabet, sextet, to_base64}

-- a character of the alphabet, which takes one UTF-16 code unit
abbrev is_digit : Char → Bool
is_digit c = is_base64_char (code c) && ltb (code c) 0x10000

abbrev are_digits : String → Bool
are_digits String.[] = true
are_digits (String.◌∷◌ c s) = is_digit c && are_digits s

abbrev count : String → ℕ
count String.[] = 0
count (String.◌∷◌ c s) = suc (count s)

-- A text of one such character.
record IsSextet (s : String) : Type 0 where
  digit : Char
  same : s ≡ String.◌∷◌ digit String.[]
  base64 : is_base64_char (code digit) ≡ true
  unit : ltb (code digit) 0x10000 ≡ true

char_at-IsSextet : (s : String) (n : ℕ) → are_digits s ≡ true → n < count s → IsSextet (char_at n s)
unfolding char_at
char_at-IsSextet String.[] n h k = absurd (omega (arith, k))
char_at-IsSextet (String.◌∷◌ c s) zero h k = record {
  digit = c;
  same = refl;
  base64 = ground (arith, h);
  unit = ground (arith, h);
}
char_at-IsSextet (String.◌∷◌ c s) (suc n) h k =
    char_at-IsSextet s n (ground (arith, h)) (omega (arith, k))

alphabet-digits : are_digits alphabet ≡ true
unfolding is_base64_char
alphabet-digits = refl

sextet-IsSextet : (n : ℕ) → IsSextet (sextet n)
unfolding sextet
sextet-IsSextet n = char_at-IsSextet alphabet (n % 64) alphabet-digits (omega arith)

-- What the gateway's check computes of a text that starts with one such character.
record IsPut (t u : String) : Type 0 where
  re : base64_re u ≡ base64_re t
  body : body_length u ≡ suc (body_length t)
  units : utf16_length u ≡ suc (utf16_length t)

append-IsPut : (s t : String) → IsSextet s → IsPut t (s ++ t)
unfolding base64_re body_length utf16_length
append-IsPut s t d =
    let whole : s ++ t ≡ String.◌∷◌ d.digit t =
      ap (λ z. z ++ t) d.same
      ∙ cons-append d.digit String.[] t
      ∙ ap (String.◌∷◌ d.digit) (nil-append t) in
    record {
      re = rw whole (rw d.base64 refl);
      body = rw whole (rw d.base64 refl);
      units = rw whole (rw d.unit (omega arith));
    }

-- A text that passes the check for `n` bytes.
record Encodes (n : ℕ) (s : String) : Type 0 where
  re : base64_re s ≡ true
  units : utf16_length s % 4 ≡ 0
  size : 3 * body_length s / 4 ≡ n

abbrev cons_sextet : (n : ℕ) (t : String) → IsPut t (sextet n ++ t)
cons_sextet n t = append-IsPut (sextet n) t (sextet-IsSextet n)

four-Encodes :
    (n : ℕ) (t u v w x : String)
    → Encodes n t
    → IsPut t u
    → IsPut u v
    → IsPut v w
    → IsPut w x
    → Encodes (suc (suc (suc n))) x
four-Encodes n t u v w x e a b c d = record {
  re = d.re ∙ c.re ∙ b.re ∙ a.re ∙ e.re;
  units = omega (arith, a.units, b.units, c.units, d.units, e.units);
  size = omega (arith, a.body, b.body, c.body, d.body, e.size);
}

one_byte : (t u : String) → IsPut "==" t → IsPut t u → Encodes 1 u
unfolding base64_re body_length utf16_length is_padding is_base64_char
one_byte t u a b = record {
  re = b.re ∙ a.re;
  units = omega (arith, a.units, b.units);
  size = omega (arith, a.body, b.body);
}

two_bytes : (t u v : String) → IsPut "=" t → IsPut t u → IsPut u v → Encodes 2 v
unfolding base64_re body_length utf16_length is_padding is_base64_char
two_bytes t u v a b c = record {
  re = c.re ∙ b.re ∙ a.re;
  units = omega (arith, a.units, b.units, c.units);
  size = omega (arith, a.body, b.body, c.body);
}

no_bytes : Encodes 0 ""
unfolding base64_re body_length utf16_length
no_bytes = record { re = refl; units = refl; size = refl }

to_base64-Encodes : (buffer : List ℕ) → Encodes (length buffer) (to_base64 buffer)
unfolding to_base64
to_base64-Encodes [] = no_bytes
to_base64-Encodes (a ∷ []) = one_byte _ _ (cons_sextet (a % 4 * 16) _) (cons_sextet (a / 4) _)
to_base64-Encodes (a ∷ b ∷ []) =
    two_bytes _ _ _ (cons_sextet (b % 16 * 4) _) (cons_sextet (a % 4 * 16 + b / 16) _)
      (cons_sextet (a / 4) _)
to_base64-Encodes (a ∷ b ∷ c ∷ rest) =
    four-Encodes (length rest) (to_base64 rest) _ _ _ _ (to_base64-Encodes rest) (cons_sextet c _)
      (cons_sextet (b % 16 * 4 + c / 64) _) (cons_sextet (a % 4 * 16 + b / 16) _)
      (cons_sextet (a / 4) _)

check_content-to_base64 :
    (name : String) (buffer : List ℕ)
    → check_content name Encoding.base64 (to_base64 buffer) ≡ ok (length buffer)
unfolding check_content decoded_length
check_content-to_base64 name buffer =
    let e = to_base64-Encodes buffer in ground (arith, e.re, e.units, e.size)

-- The gateway accepts the wire file that the client makes of any buffer, where it accepts the name,
-- and counts it with exactly the length of the buffer.
pub check_file-to_file_input :
    (name rel : String) (buffer : List ℕ)
    → sanitize_workspace_path name ≡ ok rel
    → check_file (to_file_input (binary name buffer)) ≡ ok (length buffer)
unfolding check_file check_source to_file_input
check_file-to_file_input name rel buffer h = rw h (check_content-to_base64 name buffer)
