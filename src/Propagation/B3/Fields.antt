-- ===== src/Propagation/B3/Fields.antt =====
-- oteltrace/propagation/b3.py and w3c.py: the padded format of a number that is small enough has the
-- width that was asked for, and lower-case digits.
use Prim.Native.Char.{Char, code}
use mathlib.Core.Path.{subst}
use Prim.Native.Nat.{◌^◌}
use native.Mathlib.Nat.{pow-suc}
use opentelemetry_auto_instr.Common.{
  ℕ, zero, suc, ◌+◌, ◌-◌, ◌*◌, ◌/◌, ◌%◌, ◌<◌, ◌≤◌, ◌≡◌, refl, ◌∙◌, ap, pos, true, false, some,
  String, ltb, arith, Bool-cases, inl, inr,
}
use opentelemetry_auto_instr.Text.{text_length, all_chars}
use opentelemetry_auto_instr.Propagation.{codes, as_positive}
use opentelemetry_auto_instr.Propagation.B3.{
  hex_char, show_hex, zeros, format_hex, hex_value, read_hex, read_hex_signed, parse_hex,
}
use opentelemetry_auto_instr.Propagation.B3.Hex.{
  code-hex_char, Hexes, skip_spaces-Hexes, signed-Hexes,
}
use opentelemetry_auto_instr.Propagation.W3c.{is_lower_hex}

hex_char-lower : (d : ℕ) → d < 16 → is_lower_hex (hex_char d) ≡ true
hex_char-lower d h = rw (code-hex_char d h) (ground (arith, h))

lower_zeros :
    (k : ℕ) (s : String)
    → all_chars is_lower_hex s ≡ true
    → all_chars is_lower_hex (zeros k s) ≡ true
unfolding zeros
lower_zeros zero s h = h
lower_zeros (suc k) s h = lower_zeros k s h

lower_show_hex :
    (fuel n : ℕ) (rest : String)
    → all_chars is_lower_hex rest ≡ true
    → all_chars is_lower_hex (show_hex fuel n rest) ≡ true
unfolding show_hex
lower_show_hex zero n rest h = h
lower_show_hex (suc fuel) n rest h = elim (Bool-cases (ltb n 16)) [
  | inl small ↦ simp small (simp (hex_char-lower n (ground arith)) h)
  | inr large ↦ simp large (
      lower_show_hex fuel (n / 16) (String.◌∷◌ (hex_char (n % 16)) rest)
        (simp (hex_char-lower (n % 16) (omega arith)) h))
]

length-zeros : (k : ℕ) (s : String) → text_length (zeros k s) ≡ k + text_length s
unfolding zeros
length-zeros zero s = omega arith
length-zeros (suc k) s = omega (arith, length-zeros k s)

-- A number below 16 to the k has at most k digits, and at least one.
length-show_hex :
    (fuel n k : ℕ) (rest : String)
    → n < 16 ^ suc k
    → text_length (show_hex fuel n rest) ≤ suc k + text_length rest
unfolding show_hex
length-show_hex zero n k rest h = omega arith
length-show_hex (suc fuel) n zero rest h =
    simp (one_digit n (omega (arith, pow-suc 16 0))) (omega arith)
  where
    one_digit : (n : ℕ) → n < 16 → ltb n 16 ≡ true
    one_digit n h = ground (arith, h)
length-show_hex (suc fuel) n (suc k) rest h = elim (Bool-cases (ltb n 16)) [
  | inl small ↦ simp small (omega arith)
  | inr large ↦ simp large (
      let fits : n / 16 < 16 ^ suc k = omega (arith, pow-suc 16 (suc k)) in
      let shorter = length-show_hex fuel (n / 16) k (String.◌∷◌ (hex_char (n % 16)) rest) fits in
      omega (arith, shorter))
]

-- A text of n lower-case hexadecimal digits.
pub record IsField (n : ℕ) (s : String) : Type 0 where
  pub digits : all_chars is_lower_hex s ≡ true
  pub long : text_length s ≡ n

pub format_hex-IsField : (k n : ℕ) → n < 16 ^ suc k → IsField (suc k) (format_hex (suc k) (pos n))
unfolding format_hex
format_hex-IsField k n h =
    let digits = show_hex (suc n) n "" in
    record {
      digits = lower_zeros (suc k - text_length digits) digits (lower_show_hex (suc n) n "" refl);
      long = omega (
        arith,
        length-zeros (suc k - text_length digits) digits,
        length-show_hex (suc n) n k "" h,
      );
    }

lower-Hexes : (s : String) → all_chars is_lower_hex s ≡ true → Hexes (codes s)
lower-Hexes String.[] h = tt
lower-Hexes (String.◌∷◌ c s) h =
    let first : is_lower_hex c ≡ true = ground (arith, h) in
    (ground (arith, first), lower-Hexes s (ground (arith, h)))

hex_value-small : (c : Char) → is_lower_hex c ≡ true → hex_value (code c) < 16
hex_value-small c h = ground (arith, h)

digit_bound : (a v k n : ℕ) → v < 16 → n < (a * 16 + v) * k + k → n < a * (16 * k) + 16 * k
digit_bound a v k n small h = grind arith

longer : (a k n : ℕ) → n < a * (16 * 16 ^ k) + 16 * 16 ^ k → n < a * 16 ^ (k + 1) + 16 ^ (k + 1)
longer a k n h =
    let next : k + 1 ≡ suc k = omega arith in
    let times : 16 ^ suc k ≡ 16 * 16 ^ k = omega (arith, pow-suc 16 k) in rw (next, times) h

-- What is read behind a number, of lower-case digits alone, has as many more digits at most.
read-lower :
    (s : String) (acc : ℕ)
    → all_chars is_lower_hex s ≡ true
    → (n : ℕ) × (read_hex true acc (codes s) ≡ some n)
      × (n < acc * 16 ^ text_length s + 16 ^ text_length s)
unfolding read_hex
read-lower String.[] acc h = (acc, refl, omega arith)
read-lower (String.◌∷◌ c s) acc h =
    let first : is_lower_hex c ≡ true = ground (arith, h) in
    let hexes = lower-Hexes (String.◌∷◌ c s) h in
    let (n, e, bound) = read-lower s (acc * 16 + hex_value (code c)) (ground (arith, h)) in
    (
      n,
      simp hexes.0 e,
      longer acc (text_length s) n (
          digit_bound acc (hex_value (code c)) (16 ^ text_length s) n (hex_value-small c first)
            bound),
    )

-- `int` in base 16 reads every text of lower-case digits that is not empty, as a number of that many
-- digits at most.
pub parse_hex-IsField :
    (k : ℕ) (s : String)
    → IsField (suc k) s
    → (n : ℕ) × (parse_hex (codes s) ≡ some (pos n)) × (n < 16 ^ suc k)
unfolding parse_hex read_hex
parse_hex-IsField k String.[] f = absurd (omega (arith, f.long))
parse_hex-IsField k (String.◌∷◌ c s) f =
    let all = lower-Hexes (String.◌∷◌ c s) f.digits in
    let first : is_lower_hex c ≡ true = ground (arith, f.digits) in
    let (n, e, bound) = read-lower s (0 * 16 + hex_value (code c)) (ground (arith, f.digits)) in
    let wide =
      longer 0 (text_length s) n (
        digit_bound 0 (hex_value (code c)) (16 ^ text_length s) n (hex_value-small c first)
          bound) in
    let read : read_hex false 0 (codes (String.◌∷◌ c s)) ≡ some n = simp all.0 e in
    (
      n,
      ap read_hex_signed (skip_spaces-Hexes (codes (String.◌∷◌ c s)) all)
          ∙ signed-Hexes (codes (String.◌∷◌ c s)) all
          ∙ ap as_positive read,
      subst (λ l. n < 16 ^ l) f.long (omega (arith, wide)),
    )
