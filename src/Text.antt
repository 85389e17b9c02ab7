-- ===== src/Text.antt =====
-- The methods of Python's `str` that oteltrace calls on ASCII texts (oteltrace/utils/http.py,
-- oteltrace/utils/formats.py, oteltrace/http/headers.py): `lower`, `upper` and `strip`, and slices and joins.
use Prim.Native.Char.{Char, char, code, nul, IsScalar}
use Prim.Native.String.{◌++◌}
use text.Mathlib.TextLemmas.{cons-append, nil-append, head-eq_of_cons-eq}
use mathlib.Core.Logic.{dite, dif_pos}
use native.Mathlib.Decide.{dec_lt}
use native.Mathlib.Bridge.{le_prop}
use opentelemetry_auto_instr.Common.{
  ◌≢◌, ap, sym, ◌∙◌, eq_iff, ℕ, zero, suc, List, [], ◌∷◌, ◌≤◌, ◌+◌, ◌-◌, ◌<◌, ◌≡◌, refl, Bool, true,
  false, ◌&&◌, ◌||◌, String, leb, str_eq, if◌then◌else◌, arith, Bool-cases, inl, inr,
}

abbrev pub text_length : String → ℕ
text_length String.[] = 0
text_length (String.◌∷◌ c s) = text_length s + 1

abbrev pub all_chars : (Char → Bool) → String → Bool
all_chars p String.[] = true
all_chars p (String.◌∷◌ c s) = p c && all_chars p s

pub ascii-IsScalar : (n : ℕ) → n < 128 → IsScalar n
ascii-IsScalar n h = ground arith

-- the character of an ASCII code
pub char_of : ℕ → Char
unfolding dec_lt
char_of n = dite (dec_lt n 128) (λ h. char n (ascii-IsScalar n h)) (λ _. nul)

pub code-char_of : (n : ℕ) → n < 128 → code (char_of n) ≡ n
unfolding char_of
code-char_of n h = rw (dif_pos (dec_lt n 128) le_prop h _) refl

abbrev pub is_upper : Char → Bool
is_upper c = leb 65 (code c) && leb (code c) 90

abbrev pub is_lower : Char → Bool
is_lower c = leb 97 (code c) && leb (code c) 122

pub lower_char : Char → Char
unfolding char_of
lower_char c = if is_upper c then char_of (code c + 32) else c

pub upper_char : Char → Char
unfolding char_of
upper_char c = if is_lower c then char_of (code c - 32) else c

-- `text.lower()`
unfoldable pub lower : String → String
unfolding lower_char
lower String.[] = ""
lower (String.◌∷◌ c s) = String.◌∷◌ (lower_char c) (lower s)

-- `text.upper()`
unfoldable pub upper : String → String
unfolding upper_char
upper String.[] = ""
upper (String.◌∷◌ c s) = String.◌∷◌ (upper_char c) (upper s)

abbrev pub is_space : Char → Bool
is_space c = (leb 9 (code c) && leb (code c) 13) || (leb 28 (code c) && leb (code c) 32)

pub strip_start : String → String
strip_start String.[] = ""
strip_start (String.◌∷◌ c s) =
    let rest = strip_start s in if is_space c then rest else String.◌∷◌ c s

pub strip_end : String → String
strip_end String.[] = ""
strip_end (String.◌∷◌ c s) =
    let rest = strip_end s in if is_space c && str_eq rest "" then "" else String.◌∷◌ c rest

-- `text.strip()`
unfoldable pub strip : String → String
unfolding strip_start strip_end
strip s = strip_end (strip_start s)

-- Lowering twice, or stripping a text that was stripped, changes nothing more.
-- `s[:n]`
pub take_text : ℕ → String → String
take_text zero s = ""
take_text (suc n) String.[] = ""
take_text (suc n) (String.◌∷◌ c s) = String.◌∷◌ c (take_text n s)

pub text_length-take_text : (n : ℕ) (s : String) → text_length (take_text n s) ≤ n
unfolding take_text
text_length-take_text zero s = omega arith
text_length-take_text (suc n) String.[] = omega arith
text_length-take_text (suc n) (String.◌∷◌ c s) = let h = text_length-take_text n s in omega arith

-- `separator.join(parts)`
unfoldable pub join_by : String → List String → String
join_by separator [] = ""
join_by separator (s ∷ []) = s
join_by separator (s ∷ t ∷ parts) = s ++ (separator ++ join_by separator (t ∷ parts))

pub text_length-append : (s t : String) → text_length (s ++ t) ≡ text_length s + text_length t
text_length-append String.[] t = rw (nil-append t) (omega arith)
text_length-append (String.◌∷◌ c s) t =
    rw (cons-append c s t) (let h = text_length-append s t in omega arith)

pub text_length-join_by :
    (separator s : String) (parts : List String)
    → text_length (join_by separator (s ∷ parts))
      ≤ text_length s + text_length separator + text_length (join_by separator parts)
unfolding join_by
text_length-join_by separator s [] = omega arith
text_length-join_by separator s (t ∷ parts) =
    let h = text_length-append s (separator ++ join_by separator (t ∷ parts)) in
    let k = text_length-append separator (join_by separator (t ∷ parts)) in omega arith

-- texts that start with different characters
pub other_start :
    (c d : Char) (s t rest : String)
    → code c ≢ code d
    → str_eq (String.◌∷◌ c s ++ rest) (String.◌∷◌ d t) ≡ false
other_start c d s t rest ne = elim (Bool-cases (str_eq (String.◌∷◌ c s ++ rest) (String.◌∷◌ d t))) [
  | inl same ↦
      absurd (ne (ap code (head-eq_of_cons-eq (sym (cons-append c s rest) ∙ (eq_iff _ _).0 same))))
  | inr other ↦ other
]
