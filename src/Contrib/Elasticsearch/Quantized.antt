-- ===== src/Contrib/Elasticsearch/Quantized.antt =====
-- oteltrace/contrib/elasticsearch/quantize.py: what becomes of the numbers of an address.
use Prim.Native.Char.{Char, code}
use Prim.Native.String.{◌++◌}
use text.Mathlib.TextLemmas.{cons-append, nil-append, cons≢nil}
use opentelemetry_auto_instr.Common.{
  ◌≡◌, refl, Bool, true, false, not, ◌&&◌, ◌||◌, ◌==◌, str_eq, eq_iff, ◌∙◌, ap, sym, arith,
  Bool-cases, inl, inr, String,
}
use opentelemetry_auto_instr.Contrib.Elasticsearch.{
  is_digit_char, IdState, after_slash, next_id, emit_id, outside, sub_ids, Run, no_digit, one_digit,
  more_digits, next_run, flush, sub_indexes, quantized_url,
}

-- Whether no two digits of a text stand side by side, behind a digit or not.
pub no_number : Bool → String → Bool
no_number behind String.[] = true
no_number behind (String.◌∷◌ c s) = not (behind && is_digit_char c) && no_number (is_digit_char c) s

IsRun : Run → Type 0
IsRun no_digit = Unit
IsRun (one_digit d) = is_digit_char d ≡ true
IsRun more_digits = Unit

-- what is passed on before a character that is no digit
flush_clean :
    (run : Run) (c : Char) (out : String)
    → IsRun run
    → is_digit_char c ≡ false
    → no_number false out ≡ true
    → no_number false (flush run (String.◌∷◌ c out)) ≡ true
unfolding no_number IsRun
flush_clean no_digit c out h e k = simp (e, k) refl
flush_clean (one_digit d) c out h e k = simp (h, e, k) refl
flush_clean more_digits c out h e k = simp (e, k) refl

flush_last : (run : Run) → IsRun run → no_number false (flush run "") ≡ true
unfolding no_number IsRun
flush_last no_digit h = refl
flush_last (one_digit d) h = refl
flush_last more_digits h = refl

next_run-IsRun : (run : Run) (c : Char) → IsRun (next_run run c)
unfolding IsRun
next_run-IsRun no_digit c = elim (Bool-cases (is_digit_char c)) [ inl b ↦ rw b b | inr b ↦ rw b tt ]
next_run-IsRun (one_digit d) c = elim (Bool-cases (is_digit_char c)) [
  | inl b ↦ rw b tt
  | inr b ↦ rw b tt
]
next_run-IsRun more_digits c = elim (Bool-cases (is_digit_char c)) [
  | inl b ↦ rw b tt
  | inr b ↦ rw b tt
]

sub_indexes_clean :
    (run : Run) (s : String) → IsRun run → no_number false (sub_indexes run s) ≡ true
unfolding sub_indexes
sub_indexes_clean run String.[] h = flush_last run h
sub_indexes_clean run (String.◌∷◌ c s) h =
    let k = sub_indexes_clean (next_run run c) s (next_run-IsRun run c) in
    elim (Bool-cases (is_digit_char c)) [
      | inl digit ↦ rw digit k
      | inr other ↦ rw other (flush_clean run c (sub_indexes (next_run run c) s) h other k)
    ]

abbrev pub is_slash : Char → Bool
is_slash c = code c == 47

-- Whether a text that stands behind a clear one ends in neither a digit nor a slash.
abbrev pub ends_clear : Bool → String → Bool
ends_clear behind String.[] = behind
ends_clear behind (String.◌∷◌ c s) = ends_clear (not (is_digit_char c || is_slash c)) s

-- Whether a text is digits alone, and one at least.
abbrev pub all_digits : String → Bool
all_digits String.[] = true
all_digits (String.◌∷◌ c s) = is_digit_char c && all_digits s

abbrev pub is_id : String → Bool
is_id s = not (str_eq s "") && all_digits s

-- Whether an identifier ends before a text.
abbrev pub ends_before : String → Bool
ends_before String.[] = true
ends_before (String.◌∷◌ c s) = code c == 47 || code c == 63

abbrev pub Clear : Bool → IdState → Type 0
Clear behind st = behind ≡ true → st ≡ outside

next_id-Clear :
    (st : IdState) (c : Char) (rest : String)
    → Clear (not (is_digit_char c || is_slash c)) (next_id st c rest)
next_id-Clear outside c rest e =
    let other : is_slash c ≡ false = ground (arith, e) in simp other refl
next_id-Clear (after_slash digits) c rest e =
    let digit : is_digit_char c ≡ false = ground (arith, e) in
    let other : is_slash c ≡ false = ground (arith, e) in
    elim (Bool-cases (str_eq digits "")) [
      | inl none_yet ↦ simp (digit, other, none_yet) refl
      | inr some_yet ↦ simp (digit, other, some_yet) refl
    ]

-- What is emitted does not depend on a rest that is not empty.
emit_id-rest :
    (st : IdState) (c : Char) (rest rest' out : String)
    → str_eq rest "" ≡ false
    → str_eq rest' "" ≡ false
    → emit_id st c rest out ≡ emit_id st c rest' out
emit_id-rest outside c rest rest' out e f = refl
emit_id-rest (after_slash digits) c rest rest' out e f = simp (e, f) refl

next_id-rest :
    (st : IdState) (c : Char) (rest rest' : String) → next_id st c rest ≡ next_id st c rest'
next_id-rest outside c rest rest' = refl
next_id-rest (after_slash digits) c rest rest' = refl

cons_given : (c : Char) (s : String) → str_eq (String.◌∷◌ c s) "" ≡ false
cons_given c s = elim (Bool-cases (str_eq (String.◌∷◌ c s) "")) [
  | inl empty ↦ absurd (cons≢nil ((eq_iff _ _).0 empty))
  | inr given ↦ given
]

not_empty : (before s : String) → str_eq s "" ≡ false → str_eq (before ++ s) "" ≡ false
not_empty String.[] s e = rw (nil-append s) e
not_empty (String.◌∷◌ c before) s e = rw (cons-append c before s) (cons_given c (before ++ s))

-- Behind a text that ends clear, what is made of a rest depends on the rest alone.
sub_ids-Clear :
    (before : String) (behind : Bool) (st : IdState) (s s' : String)
    → Clear behind st
    → ends_clear behind before ≡ true
    → str_eq s "" ≡ false
    → str_eq s' "" ≡ false
    → sub_ids outside s ≡ sub_ids outside s'
    → sub_ids st (before ++ s) ≡ sub_ids st (before ++ s')
unfolding sub_ids
sub_ids-Clear String.[] behind st s s' clear e f g same =
    let out : st ≡ outside = clear e in rw (out, nil-append s, nil-append s') same
sub_ids-Clear (String.◌∷◌ c before) behind st s s' clear e f g same =
    let next = next_id st c (before ++ s) in
    rw (cons-append c before s, cons-append c before s')
      (emit_id-rest st c (before ++ s) (before ++ s') (sub_ids next (before ++ s))
          (not_empty before s f) (not_empty before s' g)
        ∙ ap (emit_id st c (before ++ s')) (
            sub_ids-Clear before (not (is_digit_char c || is_slash c)) next s s'
              (next_id-Clear st c (before ++ s)) e f g same
            ∙ ap (λ st'. sub_ids st' (before ++ s'))
                (next_id-rest st c (before ++ s) (before ++ s'))))

-- What is made of an identifier and the rest behind it.
abbrev replaced : String → String
replaced String.[] = "/?"
replaced (String.◌∷◌ c rest) = "/?" ++ String.◌∷◌ c (sub_ids outside rest)

ended :
    (digits rest : String)
    → str_eq digits "" ≡ false
    → ends_before rest ≡ true
    → sub_ids (after_slash digits) rest ≡ replaced rest
unfolding sub_ids
ended digits String.[] some_read e = simp some_read refl
ended digits (String.◌∷◌ c rest) some_read e =
    let other : is_digit_char c ≡ false = ground (arith, e) in simp (some_read, other, e) refl

read_digits :
    (digits d rest : String)
    → str_eq digits "" ≡ false
    → all_digits d ≡ true
    → ends_before rest ≡ true
    → sub_ids (after_slash digits) (d ++ rest) ≡ replaced rest
unfolding sub_ids
read_digits digits String.[] rest some_read h e =
    rw (nil-append rest) (ended digits rest some_read e)
read_digits digits (String.◌∷◌ c d) rest some_read h e =
    let digit : is_digit_char c ≡ true = ground (arith, h) in
    let more =
      read_digits (digits ++ String.◌∷◌ c "") d rest
        (not_empty digits (String.◌∷◌ c "") (cons_given c "")) (ground (arith, h)) e in
    rw (cons-append c d rest) (simp digit more)

read_id :
    (d rest : String)
    → is_id d ≡ true
    → ends_before rest ≡ true
    → sub_ids outside (String.◌∷◌ "/" (d ++ rest)) ≡ replaced rest
unfolding sub_ids
read_id String.[] rest h e = absurd (ground (arith, h))
read_id (String.◌∷◌ c d) rest h e =
    let digit : is_digit_char c ≡ true = ground (arith, h) in
    let more =
      read_digits ("" ++ String.◌∷◌ c "") d rest (not_empty "" (String.◌∷◌ c "") (cons_given c ""))
        (ground (arith, h)) e in
    rw (cons-append c d rest) (simp digit more)

-- Addresses that differ in an identifier alone, a slash with digits behind a text, empty or not, that ends in neither a
-- digit nor a slash, and before a slash, a question mark or the end, have the same quantized address;
-- and it has no two digits side by side.
pub quantized_url_clean :
    (before d d' rest : String)
    → ends_clear true before ≡ true
    → is_id d ≡ true
    → is_id d' ≡ true
    → ends_before rest ≡ true
    → (quantized_url (before ++ String.◌∷◌ "/" (d ++ rest))
        ≡ quantized_url (before ++ String.◌∷◌ "/" (d' ++ rest)))
      × (no_number false (quantized_url (before ++ String.◌∷◌ "/" (d ++ rest))) ≡ true)
unfolding quantized_url IsRun
quantized_url_clean before d d' rest clear h h' e = (
  ap (sub_indexes no_digit) (
      sub_ids-Clear before true outside (String.◌∷◌ "/" (d ++ rest)) (String.◌∷◌ "/" (d' ++ rest))
        (λ _. refl) clear (cons_given "/" (d ++ rest)) (cons_given "/" (d' ++ rest))
        (read_id d rest h e ∙ sym (read_id d' rest h' e))),
  sub_indexes_clean no_digit (sub_ids outside (before ++ String.◌∷◌ "/" (d ++ rest))) tt,
)
