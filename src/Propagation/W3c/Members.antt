-- ===== src/Propagation/W3c/Members.antt =====
-- oteltrace/propagation/w3c.py: what the keys and values of a tracestate hold, and the ends of a
-- member's text.
use Prim.Native.Char.{Char, code}
use Prim.Native.String.{◌++◌ as append}
use text.Mathlib.TextLemmas.{cons-append, nil-append, append-ne-nil_of_right_ne-nil, cons≢nil}
use opentelemetry_auto_instr.Common.{
  ℕ, ◌≡◌, ◌≢◌, refl, sym, ◌∙◌, ap, ◌==◌, Bool, true, false, not, ◌&&◌, Option, none, some, String,
  str_eq, eq_iff, arith, Bool-cases, inl, inr,
}
use opentelemetry_auto_instr.Text.{all_chars}
use opentelemetry_auto_instr.Propagation.W3c.{
  is_blank, is_lower, is_key_char, is_value_char, is_word, is_vendor_key, is_key, is_value,
  skip_blanks, drop_end_blanks, push_before, cut_at,
}

-- A member that the format of tracestate allows; its value does not end in a blank.
pub record IsMember (member : String × String) : Type 0 where
  pub key : is_key member.0 ≡ true
  pub value : is_value member.1 ≡ true
  pub ended : drop_end_blanks member.1 ≡ member.1

-- the text of a member
abbrev pub shown : String × String → String
shown (key, value) = append key (append "=" value)

-- no comma and no equals sign
abbrev pub is_plain : Char → Bool
is_plain c = not (code c == 44) && not (code c == 61)

all_chars_mono :
    (p q : Char → Bool) (s : String)
    → ((c : Char) → p c ≡ true → q c ≡ true)
    → all_chars p s ≡ true
    → all_chars q s ≡ true
all_chars_mono p q String.[] k h = refl
all_chars_mono p q (String.◌∷◌ c s) k h = elim (Bool-cases (p c)) [
  | inl has ↦ simp (k c has) (all_chars_mono p q s k (rw has at h))
  | inr lacks ↦ absurd (ground (arith, lacks, h))
]

word_plain : (n : ℕ) (s : String) → is_word n s ≡ true → all_chars is_plain s ≡ true
word_plain n String.[] h = refl
word_plain n (String.◌∷◌ c s) h =
    let first : is_lower c ≡ true = ground (arith, h) in
    let rest : all_chars is_key_char s ≡ true = ground (arith, h) in
    let plain : is_plain c ≡ true = ground (arith, first) in
    simp plain (all_chars_mono is_key_char is_plain s (λ d e. ground (arith, e)) rest)

-- The text is plain if both parts of its cut are.
abbrev Rejoins : String → Option (String × String) → Type 0
Rejoins s none = Unit
Rejoins s (some (before, after)) =
    all_chars is_plain before ≡ true → all_chars is_plain after ≡ true → all_chars is_plain s ≡ true

push_before-Rejoins :
    (c : Char) (s : String) (cut : Option (String × String))
    → Rejoins s cut
    → Rejoins (String.◌∷◌ c s) (push_before c cut)
push_before-Rejoins c s none h = tt
push_before-Rejoins c s (some (before, after)) h = λ hb ha. elim (Bool-cases (is_plain c)) [
  | inl plain ↦ simp plain (h (rw plain at hb) ha)
  | inr other ↦ absurd (ground (arith, other, hb))
]

cut_at-Rejoins : (s : String) → Rejoins s (cut_at 64 s)
unfolding cut_at
cut_at-Rejoins String.[] = tt
cut_at-Rejoins (String.◌∷◌ c s) = elim (Bool-cases (code c == 64)) [
  | inl mark ↦
      simp mark (λ _ ha. let plain : is_plain c ≡ true = ground (arith, mark) in simp plain ha)
  | inr other ↦ simp other (push_before-Rejoins c s (cut_at 64 s) (cut_at-Rejoins s))
]

vendor_key_plain : (key : String) → is_vendor_key key ≡ true → all_chars is_plain key ≡ true
unfolding cut_at is_vendor_key
vendor_key_plain key h = parts (cut_at 64 key) (cut_at-Rejoins key) h
  where
    parts :
        (cut : Option (String × String))
        → Rejoins key cut
        → (elim cut [
          | none ↦ false
          | some (tenant, vendor) ↦ is_word 240 tenant && is_word 13 vendor
        ])
          ≡ true
        → all_chars is_plain key ≡ true
    parts none r e = absurd (ground (arith, e))
    parts (some (tenant, vendor)) r e =
        r (word_plain 240 tenant (ground (arith, e))) (word_plain 13 vendor (ground (arith, e)))

pub key_plain : (key : String) → is_key key ≡ true → all_chars is_plain key ≡ true
unfolding is_key
key_plain key h = elim (Bool-cases (is_word 255 key)) [
  | inl word ↦ word_plain 255 key word
  | inr other ↦ vendor_key_plain key (rw other at h)
]

vendor_first : (c : Char) (s : String) → is_vendor_key (String.◌∷◌ c s) ≡ true → is_lower c ≡ true
unfolding cut_at is_vendor_key
vendor_first c s h = elim (Bool-cases (code c == 64)) [
  | inl mark ↦ absurd (let bad = rw (mark, is_vendor_key) at h in ground (arith, bad))
  | inr other ↦ tenant (cut_at 64 s) (rw (other, is_vendor_key) at h)
]
  where
    tenant :
        (cut : Option (String × String))
        → (elim (push_before c cut) [
          | none ↦ false
          | some (tenant, vendor) ↦ is_word 240 tenant && is_word 13 vendor
        ])
          ≡ true
        → is_lower c ≡ true
    tenant none e = absurd (ground (arith, e))
    tenant (some (before, after)) e = ground (arith, e)

key_first : (c : Char) (s : String) → is_key (String.◌∷◌ c s) ≡ true → is_blank c ≡ false
unfolding is_key
key_first c s h = elim (Bool-cases (is_word 255 (String.◌∷◌ c s))) [
  | inl word ↦ (let lower : is_lower c ≡ true = ground (arith, word) in ground (arith, lower))
  | inr other ↦ (let lower = vendor_first c s (rw other at h) in ground (arith, lower))
]

pub skip_blanks-shown :
    (key value : String) → is_key key ≡ true → skip_blanks (shown (key, value)) ≡ shown (key, value)
unfolding skip_blanks is_key cut_at is_vendor_key
skip_blanks-shown String.[] value h = absurd (ground (arith, h))
skip_blanks-shown (String.◌∷◌ c s) value h =
    rw (cons-append c s (append "=" value)) (simp (key_first c s h) refl)

-- A text is untouched at its end if what it ends with is, and is not empty.
drop_end_blanks-append :
    (s t : String) → drop_end_blanks t ≡ t → t ≢ "" → drop_end_blanks (append s t) ≡ append s t
unfolding drop_end_blanks
drop_end_blanks-append String.[] t h ne = simp nil-append h
drop_end_blanks-append (String.◌∷◌ c s) t h ne =
    rw (cons-append c s t) (simp (drop_end_blanks-append s t h ne, solid) (ground arith))
  where
    solid : str_eq (append s t) "" ≡ false
    solid = elim (Bool-cases (str_eq (append s t) "")) [
      | inl empty ↦ absurd (append-ne-nil_of_right_ne-nil s ne ((eq_iff (append s t) "").0 empty))
      | inr given ↦ given
    ]

pub value_plain : (value : String) → is_value value ≡ true → all_chars is_plain value ≡ true
value_plain value h =
    all_chars_mono is_value_char is_plain value (λ c e. ground (arith, e)) (ground (arith, h))

pub append_equals : (s : String) → append "=" s ≡ String.◌∷◌ "=" s
append_equals s = cons-append "=" "" s ∙ ap (String.◌∷◌ "=") (nil-append s)

drop_end_blanks_equals :
    (s : String) → drop_end_blanks s ≡ s → drop_end_blanks (append "=" s) ≡ append "=" s
unfolding drop_end_blanks
drop_end_blanks_equals s h = rw (append_equals s) (ap (String.◌∷◌ "=") h)

pub drop_end_blanks-shown :
    (key value : String)
    → drop_end_blanks value ≡ value
    → drop_end_blanks (shown (key, value)) ≡ shown (key, value)
drop_end_blanks-shown key value h =
    drop_end_blanks-append key (append "=" value) (drop_end_blanks_equals value h)
      (λ e. cons≢nil (sym (append_equals value) ∙ e))
