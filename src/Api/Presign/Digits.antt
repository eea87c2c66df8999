-- ===== src/Api/Presign/Digits.antt =====
-- A number that is written in decimal is read back.
use Prim.Native.Char.{Char, code}
use Prim.Native.String.{◌++◌}
use mathlib.Core.WellFounded.{Acc}
use mathlib.Core.Logic.{dite}
use native.Mathlib.Decide.{dec_lt}
use text.Mathlib.TextLemmas.{nil-append, cons-append}
use code_runner.Prelude.{
  ℕ, zero, suc, ◌+◌, ◌-◌, ◌*◌, ◌/◌, ◌%◌, ◌<◌, String, true, ◌&&◌, ◌≡◌, ◌≢◌, refl, ap, ◌∙◌, arith,
  show, eq_iff,
}
use mathlib.Core.Path.{subst}
use code_runner.Prelude.Texts.{digit, show_acc, lt_wf}
use code_runner.Prelude.Int.{pos, int}
use code_runner.Api.Config.{digits_from, parse_int, is_space, unsigned}
use code_runner.Api.Presign.{all_digits, is_number}

digits_from-append :
    (n : ℕ) (s t : String)
    → all_digits s ≡ true
    → digits_from n (s ++ t) ≡ digits_from (digits_from n s) t
unfolding digits_from all_digits
digits_from-append n String.[] t h = rw nil-append refl
digits_from-append n (String.◌∷◌ c s) t h =
    rw cons-append (ground (arith, digits_from-append (n * 10 + (code c - b'0')) s t))

all_digits-append : (s t : String) → all_digits (s ++ t) ≡ all_digits s && all_digits t
unfolding all_digits
all_digits-append String.[] t = rw nil-append refl
all_digits-append (String.◌∷◌ c s) t = rw cons-append (ground (arith, all_digits-append s t))

-- one digit
record IsDigit (d : ℕ) (s : String) : Type 0 where
  char : Char
  whole : s ≡ String.◌∷◌ char String.[]
  value : code char ≡ b'0' + d

digit-IsDigit : (d : ℕ) → d < 10 → IsDigit d (digit d)
unfolding digit
digit-IsDigit zero h = record { char = "0"; whole = refl; value = refl }
digit-IsDigit (suc zero) h = record { char = "1"; whole = refl; value = refl }
digit-IsDigit (suc (suc zero)) h = record { char = "2"; whole = refl; value = refl }
digit-IsDigit (suc (suc (suc zero))) h = record { char = "3"; whole = refl; value = refl }
digit-IsDigit (suc (suc (suc (suc zero)))) h = record { char = "4"; whole = refl; value = refl }
digit-IsDigit (suc (suc (suc (suc (suc zero))))) h = record {
  char = "5";
  whole = refl;
  value = refl;
}
digit-IsDigit (suc (suc (suc (suc (suc (suc zero)))))) h = record {
  char = "6";
  whole = refl;
  value = refl;
}
digit-IsDigit (suc (suc (suc (suc (suc (suc (suc zero))))))) h = record {
  char = "7";
  whole = refl;
  value = refl;
}
digit-IsDigit (suc (suc (suc (suc (suc (suc (suc (suc zero)))))))) h = record {
  char = "8";
  whole = refl;
  value = refl;
}
digit-IsDigit (suc (suc (suc (suc (suc (suc (suc (suc (suc zero))))))))) h = record {
  char = "9";
  whole = refl;
  value = refl;
}
digit-IsDigit (suc (suc (suc (suc (suc (suc (suc (suc (suc (suc d)))))))))) h =
    absurd (omega (arith, h))

-- A text of digits, at least one, that stands for the number.
pub record Writes (n : ℕ) (s : String) : Type 0 where
  pub head : Char
  pub tail : String
  pub whole : s ≡ String.◌∷◌ head tail
  pub digits : all_digits s ≡ true
  pub value : digits_from 0 s ≡ n

one-Writes : (d : ℕ) (s : String) → d < 10 → IsDigit d s → Writes d s
unfolding all_digits digits_from
one-Writes d s h i = record {
  head = i.char;
  tail = String.[];
  whole = i.whole;
  digits = rw i.whole (ground (arith, i.value, h));
  value = rw i.whole (ground (arith, i.value, h));
}

more-Writes :
    (n d : ℕ) (s t : String) → d < 10 → Writes n s → IsDigit d t → Writes (n * 10 + d) (s ++ t)
unfolding all_digits digits_from
more-Writes n d s t h w i =
    let one = one-Writes d t h i in
    record {
      head = w.head;
      tail = w.tail ++ t;
      whole = ap (λ z. z ++ t) w.whole ∙ cons-append w.head w.tail t;
      digits = all_digits-append s t ∙ ground (arith, w.digits, one.digits);
      value =
          digits_from-append 0 s t w.digits
          ∙ ap (λ (m : ℕ). digits_from m t) w.value
          ∙ rw i.whole (ground (arith, i.value, h));
    }

dite-Writes :
    (n : ℕ) (d : Dec (9 < n)) (more : 9 < n → String)
    → ((h : 9 < n) → Writes (n / 10) (more h))
    → Writes n (dite d (λ h. more h ++ digit (n % 10)) (λ _. digit n))
dite-Writes n (yes h) more w =
    subst (λ (m : ℕ). Writes m (more h ++ digit (n % 10))) (omega arith)
      (more-Writes (n / 10) (n % 10) (more h) (digit (n % 10)) (omega arith) (w h)
        (digit-IsDigit (n % 10) (omega arith)))
dite-Writes n (no h) more w =
    one-Writes n (digit n) (omega (arith, h)) (digit-IsDigit n (omega (arith, h)))

show_acc-Writes : (n : ℕ) (a : Acc ◌<◌ n) → Writes n (show_acc n a)
unfolding show_acc
show_acc-Writes n (Acc.intro _ smaller) =
    dite-Writes n (dec_lt 9 n) (λ h. show_acc (n / 10) (smaller (n / 10) _))
      (λ h. show_acc-Writes (n / 10) (smaller (n / 10) _))

pub show-Writes : (n : ℕ) → Writes n (show n)
unfolding show
show-Writes n = show_acc-Writes n (lt_wf.apply n)

pub parse_int-Writes : (n : ℕ) (s : String) → Writes n s → parse_int s ≡ int (pos n)
unfolding parse_int is_space unsigned all_digits
parse_int-Writes n s w = rw w.whole (ground (arith, w.digits, w.value, w.whole))

pub is_number-Writes : (n : ℕ) (s : String) → Writes n s → is_number s ≡ true
unfolding is_number
is_number-Writes n s w =
    let written : s ≢ "" = λ e. cc (e, w.whole) in ground (arith, w.digits, eq_iff s "", written)
