-- ===== src/Propagation/B3/Hex.antt =====
-- oteltrace/propagation/b3.py: `int(text, 16)` reads back what the format '032x' writes.
use Prim.Native.Char.{code}
use Prim.Native.Nat.{◌/◌}
use opentelemetry_auto_instr.Common.{
  ℕ, zero, suc, ◌+◌, ◌-◌, ◌*◌, ◌%◌, ◌<◌, ◌≡◌, refl, ◌∙◌, ap, ◌==◌, pos, Bool, true, false, ◌||◌,
  All, some, String, List, [], ◌∷◌, ltb, arith, Bool-cases, inl, inr, if◌then◌else◌,
}
use opentelemetry_auto_instr.Text.{text_length}
use opentelemetry_auto_instr.Propagation.{codes, is_space, skip_spaces, as_positive}
use opentelemetry_auto_instr.Propagation.Digits.{code-digit_char}
use opentelemetry_auto_instr.Propagation.B3.{
  hex_letter, hex_char, show_hex, zeros, format_hex, is_hex, hex_value, read_hex, skip_prefix,
  read_hex_signed, parse_hex,
}

code-hex_letter : (k : ℕ) → k < 6 → code (hex_letter k) ≡ 97 + k
code-hex_letter zero h = refl
code-hex_letter (suc zero) h = refl
code-hex_letter (suc (suc zero)) h = refl
code-hex_letter (suc (suc (suc zero))) h = refl
code-hex_letter (suc (suc (suc (suc zero)))) h = refl
code-hex_letter (suc (suc (suc (suc (suc zero))))) h = refl
code-hex_letter (suc (suc (suc (suc (suc (suc n)))))) h = absurd (omega (arith, h))

pub code-hex_char : (d : ℕ) → d < 16 → code (hex_char d) ≡ (if ltb d 10 then 48 + d else 87 + d)
code-hex_char d h = elim (Bool-cases (ltb d 10)) [
  | inl small ↦ simp small (code-digit_char d (ground arith))
  | inr large ↦ simp large (code-hex_letter (d - 10) (ground arith) ∙ ground (arith, h))
]

hex_char-digit :
    (d : ℕ) → d < 16 → (is_hex (code (hex_char d)) ≡ true) × (hex_value (code (hex_char d)) ≡ d)
hex_char-digit d h = rw (code-hex_char d h) (ground (arith, h), ground (arith, h))

read_digit :
    (after_digit : Bool) (acc d : ℕ) (cs : List ℕ)
    → d < 16
    → read_hex after_digit acc (code (hex_char d) ∷ cs) ≡ read_hex true (acc * 16 + d) cs
unfolding read_hex
read_digit after_digit acc d cs h = simp ((hex_char-digit d h).0, (hex_char-digit d h).1) refl

-- What `show_hex` writes is read before the rest.
read-show_hex :
    (fuel n : ℕ) (after_digit : Bool) (rest : String)
    → n < fuel
    → read_hex after_digit 0 (codes (show_hex fuel n rest)) ≡ read_hex true n (codes rest)
unfolding show_hex
read-show_hex zero n after_digit rest h = absurd (omega (arith, h))
read-show_hex (suc fuel) n after_digit rest h = elim (Bool-cases (ltb n 16)) [
  | inl small ↦ simp small (
      read_digit after_digit 0 n (codes rest) (ground arith)
      ∙ ap (λ k. read_hex true k (codes rest)) (omega arith))
  | inr large ↦ simp large (
      read-show_hex fuel (n / 16) after_digit (String.◌∷◌ (hex_char (n % 16)) rest) (ground arith)
      ∙ read_digit true (n / 16) (n % 16) (codes rest) (omega arith)
      ∙ ap (λ k. read_hex true k (codes rest)) (omega arith))
]

abbrev pub Hexes : List ℕ → Type 0
Hexes cs = All (λ c. is_hex c ≡ true) cs

show_hex-Hexes :
    (fuel n : ℕ) (rest : String) → Hexes (codes rest) → Hexes (codes (show_hex fuel n rest))
unfolding show_hex
show_hex-Hexes zero n rest h = h
show_hex-Hexes (suc fuel) n rest h = elim (Bool-cases (ltb n 16)) [
  | inl small ↦ simp small ((hex_char-digit n (ground arith)).0, h)
  | inr large ↦ simp large (
      show_hex-Hexes fuel (n / 16) (String.◌∷◌ (hex_char (n % 16)) rest)
        ((hex_char-digit (n % 16) (omega arith)).0, h))
]

zeros-Hexes : (k : ℕ) (rest : String) → Hexes (codes rest) → Hexes (codes (zeros k rest))
unfolding zeros
zeros-Hexes zero rest h = h
zeros-Hexes (suc k) rest h = (refl, zeros-Hexes k rest h)

-- zeros before a text that has a digit do not matter
read-zeros :
    (k n : ℕ) (rest : String)
    → ((after_digit : Bool) → read_hex after_digit 0 (codes rest) ≡ some n)
    → (after_digit : Bool) → read_hex after_digit 0 (codes (zeros k rest)) ≡ some n
unfolding zeros read_hex
read-zeros zero n rest h after_digit = h after_digit
read-zeros (suc k) n rest h after_digit = read-zeros k n rest h true

pub skip_spaces-Hexes : (cs : List ℕ) → Hexes cs → skip_spaces cs ≡ cs
unfolding skip_spaces
skip_spaces-Hexes [] h = refl
skip_spaces-Hexes (c ∷ cs) h = simp (no_space c h.0) refl
  where
    no_space : (c : ℕ) → is_hex c ≡ true → is_space c ≡ false
    no_space c e = ground (arith, e)

skip_prefix-Hexes : (cs : List ℕ) → Hexes cs → skip_prefix cs ≡ cs
skip_prefix-Hexes [] h = refl
skip_prefix-Hexes (c ∷ []) h = refl
skip_prefix-Hexes (c ∷ d ∷ cs) h = simp (no_prefix d h.1.0) (ground arith)
  where
    no_prefix : (d : ℕ) → is_hex d ≡ true → ((d == 120) || (d == 88)) ≡ false
    no_prefix d e = ground (arith, e)

pub signed-Hexes : (cs : List ℕ) → Hexes cs → read_hex_signed cs ≡ as_positive (read_hex false 0 cs)
unfolding read_hex
signed-Hexes [] h = refl
signed-Hexes (c ∷ cs) h =
    simp ((no_sign c h.0).0, (no_sign c h.0).1)
      (ap (λ t. as_positive (read_hex false 0 t)) (skip_prefix-Hexes (c ∷ cs) h))
  where
    no_sign : (c : ℕ) → is_hex c ≡ true → (c == 45 ≡ false) × (c == 43 ≡ false)
    no_sign c e = (ground (arith, e), ground (arith, e))

-- `int(format(n, '0<width>x'), 16)` is n, for every natural number and width.
pub parse_hex-format_hex :
    (width n : ℕ) → parse_hex (codes (format_hex width (pos n))) ≡ some (pos n)
unfolding parse_hex format_hex
parse_hex-format_hex width n =
    let digits = show_hex (suc n) n "" in
    let k = width - text_length digits in
    let all = zeros-Hexes k digits (show_hex-Hexes (suc n) n "" tt) in
    ap read_hex_signed (skip_spaces-Hexes (codes (zeros k digits)) all)
    ∙ signed-Hexes (codes (zeros k digits)) all
    ∙ ap as_positive (read-zeros k n digits (λ a. read-show_hex (suc n) n a "" (omega arith)) false)
