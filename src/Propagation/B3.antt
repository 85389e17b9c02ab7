-- ===== src/Propagation/B3.antt =====
-- oteltrace/propagation/b3.py, with `int(text, 16)` and the format '032x' of Python on ASCII texts.
pub mod Hex
pub mod Fields
pub mod RoundTrip
mod Tests
use Prim.Native.Char.{Char}
use Prim.Native.Nat.{◌/◌}
use opentelemetry_auto_instr.Common.{
  ℕ, zero, suc, ◌+◌, ◌-◌, ◌*◌, ◌%◌, ◌==◌, ℤ, pos, negsuc, Bool, true, false, not, ◌&&◌, ◌||◌,
  Option, none, some, String, List, [], ◌∷◌, Dict, lookup, insert, ltb, leb, any_of, str_eq,
  if◌then◌else◌, Result, ok, raised, key_error, value_error, type_error, Exec, ◌>>◌, ◌>>=◌, modify,
  pure, raise,
}
use opentelemetry_auto_instr.Text.{text_length}
use opentelemetry_auto_instr.Value.{auto_keep, auto_reject}
use opentelemetry_auto_instr.World.{Context}
use opentelemetry_auto_instr.Context.{empty_context, new_context}
use opentelemetry_auto_instr.Propagation.{
  codes, is_space, skip_spaces, all_spaces, as_negative, as_positive, digit_char,
}

abbrev pub hex_letter : ℕ → Char
hex_letter zero = "a"
hex_letter (suc zero) = "b"
hex_letter (suc (suc zero)) = "c"
hex_letter (suc (suc (suc zero))) = "d"
hex_letter (suc (suc (suc (suc zero)))) = "e"
hex_letter (suc (suc (suc (suc (suc n))))) = "f"

abbrev pub hex_char : ℕ → Char
hex_char n = if ltb n 10 then digit_char n else hex_letter (n - 10)

-- The hexadecimal digits of a number, before `rest`; the fuel n + 1 is enough.
pub show_hex : ℕ → ℕ → String → String
show_hex zero n rest = rest
show_hex (suc fuel) n rest =
    let higher = show_hex fuel (n / 16) (String.◌∷◌ (hex_char (n % 16)) rest) in
    if ltb n 16 then String.◌∷◌ (hex_char n) rest else higher

pub zeros : ℕ → String → String
zeros zero rest = rest
zeros (suc n) rest = String.◌∷◌ "0" (zeros n rest)

-- `format(n, '0<width>x')`: the sign counts in the width, and stands before the zeros.
unfoldable pub format_hex : ℕ → ℤ → String
unfolding show_hex zeros
format_hex width (pos n) =
    let digits = show_hex (suc n) n "" in zeros (width - text_length digits) digits
format_hex width (negsuc n) =
    let digits = show_hex (suc (suc n)) (suc n) "" in
    String.◌∷◌ "-" (zeros (width - 1 - text_length digits) digits)

abbrev pub is_hex : ℕ → Bool
is_hex c = (leb 48 c && leb c 57) || ((leb 97 c && leb c 102) || (leb 65 c && leb c 70))

abbrev pub hex_value : ℕ → ℕ
hex_value c = if leb c 57 then c - 48 else if leb 97 c then c - 87 else c - 55

-- The digits of `int(text, 16)`, after `acc`.
pub read_hex : Bool → ℕ → List ℕ → Option ℕ
read_hex after_digit acc [] = if after_digit then some acc else none
read_hex after_digit acc (c ∷ cs) =
    let next = read_hex true (acc * 16 + hex_value c) cs in
    let joined = read_hex false acc cs in
    if is_hex c
    then next
    else if after_digit && (c == 95)
    then joined
    else if after_digit && all_spaces (c ∷ cs)
    then some acc
    else none

-- The prefix 0x, after which one underscore may stand.
abbrev pub skip_underscore : List ℕ → List ℕ
skip_underscore [] = []
skip_underscore (c ∷ cs) = if c == 95 then cs else c ∷ cs

abbrev pub skip_prefix : List ℕ → List ℕ
skip_prefix [] = []
skip_prefix (c ∷ []) = c ∷ []
skip_prefix (c ∷ d ∷ cs) =
    if (c == 48) && ((d == 120) || (d == 88)) then skip_underscore cs else c ∷ d ∷ cs

abbrev pub read_hex_signed : List ℕ → Option ℤ
read_hex_signed [] = none
read_hex_signed (c ∷ cs) =
    if c == 45
    then as_negative (read_hex false 0 (skip_prefix cs))
    else if c == 43
    then as_positive (read_hex false 0 (skip_prefix cs))
    else as_positive (read_hex false 0 (skip_prefix (c ∷ cs)))

-- `int(text, 16)`, or nothing where it raises `ValueError`
unfoldable pub parse_hex : List ℕ → Option ℤ
unfolding read_hex
parse_hex cs = read_hex_signed (skip_spaces cs)

-- `_SAMPLING_PRIORITY_MAP`, with `KeyError` for another priority; '0' where there is none
abbrev pub sampled_of : Option ℤ → Result String
sampled_of none = ok "0"
sampled_of (some (pos zero)) = ok "0"
sampled_of (some (pos (suc zero))) = ok "1"
sampled_of (some (pos (suc (suc zero)))) = ok "1"
sampled_of (some (pos (suc (suc (suc n))))) = raised key_error
sampled_of (some (negsuc zero)) = ok "0"
sampled_of (some (negsuc (suc n))) = raised key_error

-- An id that is not set cannot be formatted.
abbrev pub put_id : String → ℕ → Option ℤ → Exec (Dict String) Unit
put_id header width none = raise type_error
put_id header width (some n) = modify (insert header (format_hex width n))

abbrev pub inject_sampled : Context → Result String → Exec (Dict String) Unit
inject_sampled context (raised e) = raise e
inject_sampled context (ok sampled) = do
  put_id "x-b3-traceid" 32 context.parent_trace_id
  put_id "x-b3-spanid" 16 context.parent_span_id
  modify (insert "x-b3-sampled" sampled)

-- `B3HTTPPropagator.inject`
pub inject : Context → Exec (Dict String) Unit
inject context = inject_sampled context (sampled_of context.sampling_priority)

-- `headers.get(key) or default`
abbrev pub given_or : Option String → String → String
given_or none default = default
given_or (some s) default = if str_eq s "" then default else s

abbrev pub eq_codes : List ℕ → List ℕ → Bool
eq_codes [] [] = true
eq_codes [] (d ∷ ds) = false
eq_codes (c ∷ cs) [] = false
eq_codes (c ∷ cs) (d ∷ ds) = (c == d) && eq_codes cs ds

-- `sampled in _SAMPLE_PROPAGATE_VALUES`
abbrev pub propagates : List ℕ → Bool
propagates sampled =
    any_of (eq_codes sampled) (codes "1" ∷ codes "True" ∷ codes "true" ∷ codes "d" ∷ [])

abbrev pub context_of_ids : Option ℤ → Option ℤ → Bool → Result Context
context_of_ids (some trace_id) (some span_id) keeps = ok (
    new_context (some trace_id) (some span_id) (some (if keeps then auto_keep else auto_reject))
      none)
context_of_ids none span_id keeps = raised value_error
context_of_ids (some trace_id) none keeps = raised value_error

abbrev push : ℕ → List (List ℕ) → List (List ℕ)
push c [] = (c ∷ []) ∷ []
push c (field ∷ fields) = (c ∷ field) ∷ fields

-- `text.split('-', n)`
pub split_dash : ℕ → List ℕ → List (List ℕ)
split_dash zero cs = cs ∷ []
split_dash (suc n) [] = [] ∷ []
split_dash (suc n) (c ∷ cs) =
    let after = split_dash n cs in
    let same = push c (split_dash (suc n) cs) in if c == 45 then [] ∷ after else same

-- The fields of the single header: with one, it is the sampling state; a fourth is the parent.
abbrev pub of_fields : List (List ℕ) → Result Context
of_fields (sampled ∷ []) = context_of_ids (some (pos 0)) (some (pos 0)) (propagates sampled)
of_fields (trace_id ∷ span_id ∷ []) = context_of_ids (parse_hex trace_id) (parse_hex span_id) true
of_fields (trace_id ∷ span_id ∷ sampled ∷ []) =
    context_of_ids (parse_hex trace_id) (parse_hex span_id) (propagates sampled)
of_fields (trace_id ∷ span_id ∷ sampled ∷ parent ∷ []) =
    context_of_ids (parse_hex trace_id) (parse_hex span_id) (propagates sampled)
of_fields (trace_id ∷ span_id ∷ sampled ∷ parent ∷ more ∷ fields) = ok empty_context
of_fields [] = ok empty_context

pub of_headers : Dict String → Result Context
of_headers headers =
    context_of_ids (parse_hex (codes (given_or (lookup "x-b3-traceid" headers) "0")))
      (parse_hex (codes (given_or (lookup "x-b3-spanid" headers) "0")))
      (propagates (codes (given_or (lookup "x-b3-sampled" headers) "0"))
        || str_eq (given_or (lookup "x-b3-flags" headers) "") "1")

-- `B3HTTPPropagator.extract`, which does not catch the `ValueError` of an id
pub extract : Dict String → Result Context
unfolding split_dash of_headers
extract headers =
    let single = given_or (lookup "b3" headers) "" in
    if str_eq single "" then of_headers headers else of_fields (split_dash 4 (codes single))
