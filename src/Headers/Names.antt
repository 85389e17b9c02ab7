-- ===== src/Headers/Names.antt =====
-- oteltrace/http/headers.py: the names of header tags.
use opentelemetry_auto_instr.Common.{◌≡◌, refl, ◌∙◌, true, String, arith, Bool-cases, inl, inr}
use opentelemetry_auto_instr.Text.{lower, strip, text_length, all_chars}
use opentelemetry_auto_instr.Headers.{is_tag_char, replace_chars}

chars-replace_chars : (s : String) → all_chars is_tag_char (replace_chars s) ≡ true
unfolding replace_chars
chars-replace_chars String.[] = refl
chars-replace_chars (String.◌∷◌ c s) = elim (Bool-cases (is_tag_char c)) [
  | inl kept ↦ simp kept (chars-replace_chars s)
  | inr other ↦ simp other (chars-replace_chars s)
]

length-replace_chars : (s : String) → text_length (replace_chars s) ≡ text_length s
unfolding replace_chars
length-replace_chars String.[] = refl
length-replace_chars (String.◌∷◌ c s) = omega (arith, length-replace_chars s)

length-lower : (s : String) → text_length (lower s) ≡ text_length s
unfolding lower
length-lower String.[] = refl
length-lower (String.◌∷◌ c s) = omega (arith, length-lower s)

-- The name of a header, as it ends a tag's name, has only lower-case letters, digits and _ - : /, and
-- it has as many characters as the header's name between its spaces: every other character is replaced
-- by one underscore.
pub replace_chars_normal :
    (header_name : String)
    → (all_chars is_tag_char (replace_chars (lower (strip header_name))) ≡ true)
      × (text_length (replace_chars (lower (strip header_name))) ≡ text_length (strip header_name))
replace_chars_normal header_name = (
  chars-replace_chars (lower (strip header_name)),
  length-replace_chars (lower (strip header_name)) ∙ length-lower (strip header_name),
)
