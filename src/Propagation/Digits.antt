-- ===== src/Propagation/Digits.antt =====
-- oteltrace/propagation/datadog.py: `int` reads back what `str` writes.
use Prim.Native.Char.{code}
use Prim.Native.Nat.{◌/◌}
use opentelemetry_auto_instr.Common.{
  ℕ, zero, suc, ◌+◌, ◌*◌, ◌%◌, ◌<◌, ◌≡◌, refl, ◌∙◌, ap, ◌==◌, ℤ, pos, negsuc, Bool, true, false,
  some, String, List, ◌∷◌, ltb, arith, Bool-cases, inl, inr,
}
use opentelemetry_auto_instr.Propagation.{
  codes, digit_char, show_digits, show, is_digit, is_space, skip_spaces, read_digits, as_negative,
  as_positive, read_signed, parse_int,
}

pub code-digit_char : (d : ℕ) → d < 10 → code (digit_char d) ≡ 48 + d
code-digit_char zero h = refl
code-digit_char (suc zero) h = refl
code-digit_char (suc (suc zero)) h = refl
code-digit_char (suc (suc (suc zero))) h = refl
code-digit_char (suc (suc (suc (suc zero)))) h = refl
code-digit_char (suc (suc (suc (suc (suc zero))))) h = refl
code-digit_char (suc (suc (suc (suc (suc (suc zero)))))) h = refl
code-digit_char (suc (suc (suc (suc (suc (suc (suc zero))))))) h = refl
code-digit_char (suc (suc (suc (suc (suc (suc (suc (suc zero)))))))) h = refl
code-digit_char (suc (suc (suc (suc (suc (suc (suc (suc (suc zero))))))))) h = refl
code-digit_char (suc (suc (suc (suc (suc (suc (suc (suc (suc (suc n)))))))))) h =
    absurd (omega (arith, h))

is_digit-of : (d : ℕ) → d < 10 → is_digit (48 + d) ≡ true
is_digit-of d h = ground (arith, h)

read_digit :
    (after_digit : Bool) (acc d : ℕ) (cs : List ℕ)
    → d < 10
    → read_digits after_digit acc (code (digit_char d) ∷ cs) ≡ read_digits true (acc * 10 + d) cs
unfolding read_digits
read_digit after_digit acc d cs h =
    simp (code-digit_char d h, is_digit-of d h)
      (ap (λ k. read_digits true (acc * 10 + k) cs) (omega arith))

-- What `show_digits` writes is read before the rest.
read-show_digits :
    (fuel n : ℕ) (after_digit : Bool) (rest : String)
    → n < fuel
    → read_digits after_digit 0 (codes (show_digits fuel n rest)) ≡ read_digits true n (codes rest)
unfolding show_digits
read-show_digits zero n after_digit rest h = absurd (omega (arith, h))
read-show_digits (suc fuel) n after_digit rest h = elim (Bool-cases (ltb n 10)) [
  | inl small ↦ simp small (
      read_digit after_digit 0 n (codes rest) (ground arith)
      ∙ ap (λ k. read_digits true k (codes rest)) (omega arith))
  | inr large ↦ simp large (
      read-show_digits fuel (n / 10) after_digit (String.◌∷◌ (digit_char (n % 10)) rest)
        (ground arith)
      ∙ read_digit true (n / 10) (n % 10) (codes rest) (omega arith)
      ∙ ap (λ k. read_digits true k (codes rest)) (omega arith))
]

plain_digit :
    (d : ℕ) → d < 10 → (is_space (48 + d) ≡ false) × (48 + d == 45 ≡ false) × (48 + d == 43 ≡ false)
plain_digit d h = (ground (arith, h), ground (arith, h), ground (arith, h))

-- Digits have no space and no sign before them.
signed_digit :
    (d : ℕ) (cs : List ℕ)
    → d < 10
    → read_signed (skip_spaces (code (digit_char d) ∷ cs))
      ≡ as_positive (read_digits false 0 (code (digit_char d) ∷ cs))
unfolding skip_spaces
signed_digit d cs h =
    simp (code-digit_char d h, (plain_digit d h).0, (plain_digit d h).1, (plain_digit d h).2) refl

signed-show_digits :
    (fuel n : ℕ) (rest : String)
    → n < fuel
    → read_signed (skip_spaces (codes (show_digits fuel n rest)))
      ≡ as_positive (read_digits false 0 (codes (show_digits fuel n rest)))
unfolding show_digits
signed-show_digits zero n rest h = absurd (omega (arith, h))
signed-show_digits (suc fuel) n rest h = elim (Bool-cases (ltb n 10)) [
  | inl small ↦ simp small (signed_digit n (codes rest) (ground arith))
  | inr large ↦
      simp large
        (signed-show_digits fuel (n / 10) (String.◌∷◌ (digit_char (n % 10)) rest) (ground arith))
]

read-all : (fuel n : ℕ) → n < fuel → read_digits false 0 (codes (show_digits fuel n "")) ≡ some n
unfolding read_digits
read-all fuel n h = read-show_digits fuel n false "" h

-- `int(str(n))` is n, for every integer.
pub parse_int-show : (n : ℤ) → parse_int (show n) ≡ some n
unfolding parse_int show
parse_int-show (pos n) =
    signed-show_digits (suc n) n "" (omega arith)
    ∙ ap as_positive (read-all (suc n) n (omega arith))
parse_int-show (negsuc n) =
    unfold skip_spaces in ap as_negative (read-all (suc (suc n)) (suc n) (omega arith))
