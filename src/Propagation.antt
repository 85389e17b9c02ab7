-- ===== src/Propagation.antt =====
-- oteltrace/propagation/datadog.py, with `int` and `str` of Python on ASCII texts: a context as HTTP
-- headers. Log lines are left out.
pub mod Digits
pub mod RoundTrip
pub mod Distributed
pub mod B3
pub mod W3c
mod Tests
use Prim.Native.Char.{Char, code}
use Prim.Native.Nat.{◌/◌}
use opentelemetry_auto_instr.Common.{
  ℕ, zero, suc, ◌+◌, ◌-◌, ◌*◌, ◌%◌, ◌==◌, ℤ, pos, negsuc, Bool, true, false, not, ◌&&◌, ◌||◌,
  Option, none, some, String, List, [], ◌∷◌, Dict, insert, ltb, leb, any_of, if◌then◌else◌,
}
use opentelemetry_auto_instr.World.{Context}
use opentelemetry_auto_instr.Context.{empty_context, new_context}

-- The code points of a text.
abbrev pub codes : String → List ℕ
codes String.[] = []
codes (String.◌∷◌ c s) = code c ∷ codes s

abbrev pub digit_char : ℕ → Char
digit_char zero = "0"
digit_char (suc zero) = "1"
digit_char (suc (suc zero)) = "2"
digit_char (suc (suc (suc zero))) = "3"
digit_char (suc (suc (suc (suc zero)))) = "4"
digit_char (suc (suc (suc (suc (suc zero))))) = "5"
digit_char (suc (suc (suc (suc (suc (suc zero)))))) = "6"
digit_char (suc (suc (suc (suc (suc (suc (suc zero))))))) = "7"
digit_char (suc (suc (suc (suc (suc (suc (suc (suc zero)))))))) = "8"
digit_char (suc (suc (suc (suc (suc (suc (suc (suc (suc n))))))))) = "9"

-- `str(n)` of a natural number, with the digits of less weight after it; the fuel n + 1 is enough.
pub show_digits : ℕ → ℕ → String → String
show_digits zero n rest = rest
show_digits (suc fuel) n rest =
    let higher = show_digits fuel (n / 10) (String.◌∷◌ (digit_char (n % 10)) rest) in
    if ltb n 10 then String.◌∷◌ (digit_char n) rest else higher

-- `str(n)`
pub show : ℤ → String
unfolding show_digits
show (pos n) = show_digits (suc n) n ""
show (negsuc n) = String.◌∷◌ "-" (show_digits (suc (suc n)) (suc n) "")

abbrev pub is_digit : ℕ → Bool
is_digit c = leb 48 c && leb c 57

abbrev pub is_space : ℕ → Bool
is_space c = (leb 9 c && leb c 13) || (leb 28 c && leb c 32)

pub skip_spaces : List ℕ → List ℕ
skip_spaces [] = []
skip_spaces (c ∷ cs) = let rest = skip_spaces cs in if is_space c then rest else c ∷ cs

abbrev pub all_spaces : List ℕ → Bool
all_spaces [] = true
all_spaces (c ∷ cs) = is_space c && all_spaces cs

-- The digits of `int`, after `acc`: single underscores may stand between digits, and spaces after
-- them.
pub read_digits : Bool → ℕ → List ℕ → Option ℕ
read_digits after_digit acc [] = if after_digit then some acc else none
read_digits after_digit acc (c ∷ cs) =
    let next = read_digits true (acc * 10 + (c - 48)) cs in
    let joined = read_digits false acc cs in
    if is_digit c
    then next
    else if after_digit && (c == 95)
    then joined
    else if after_digit && all_spaces (c ∷ cs)
    then some acc
    else none

abbrev pub as_negative : Option ℕ → Option ℤ
as_negative none = none
as_negative (some zero) = some (pos zero)
as_negative (some (suc n)) = some (negsuc n)

abbrev pub as_positive : Option ℕ → Option ℤ
as_positive none = none
as_positive (some n) = some (pos n)

abbrev pub read_signed : List ℕ → Option ℤ
read_signed [] = none
read_signed (c ∷ cs) =
    if c == 45
    then as_negative (read_digits false 0 cs)
    else if c == 43
    then as_positive (read_digits false 0 cs)
    else as_positive (read_digits false 0 (c ∷ cs))

-- `int(text)`, or nothing where it raises `ValueError`
pub parse_int : String → Option ℤ
unfolding skip_spaces read_digits
parse_int s = read_signed (skip_spaces (codes s))

abbrev pub trace_id_header : String
trace_id_header = "x-datadog-trace-id"

abbrev pub parent_id_header : String
parent_id_header = "x-datadog-parent-id"

abbrev pub sampling_priority_header : String
sampling_priority_header = "x-datadog-sampling-priority"

abbrev pub origin_header : String
origin_header = "x-datadog-origin"

-- `str.lower` of one character of an ASCII text
abbrev pub lower : ℕ → ℕ
lower c = if leb 65 c && leb c 90 then c + 32 else c

-- `header.lower() == header_name.lower()`
pub same_header : List ℕ → List ℕ → Bool
same_header [] [] = true
same_header [] (d ∷ ds) = false
same_header (c ∷ cs) [] = false
same_header (c ∷ cs) (d ∷ ds) = (lower c == lower d) && same_header cs ds

-- The names of a header: its own, and the one that WSGI gives it.
abbrev pub Names : Type 0
Names = String × String

abbrev pub trace_id_names : Names
trace_id_names = (trace_id_header, "HTTP_X_DATADOG_TRACE_ID")

abbrev pub parent_id_names : Names
parent_id_names = (parent_id_header, "HTTP_X_DATADOG_PARENT_ID")

abbrev pub sampling_priority_names : Names
sampling_priority_names = (sampling_priority_header, "HTTP_X_DATADOG_SAMPLING_PRIORITY")

abbrev pub origin_names : Names
origin_names = (origin_header, "HTTP_X_DATADOG_ORIGIN")

pub is_named : Names → String → Bool
unfolding same_header
is_named (name, wsgi_name) header =
    same_header (codes header) (codes name) || same_header (codes header) (codes wsgi_name)

-- `extract_header_value`: of the first header with one of the names
pub extract_header_value : Names → Dict String → Option String
extract_header_value names [] = none
extract_header_value names ((header, value) ∷ headers) =
    let rest = extract_header_value names headers in
    if is_named names header then some value else rest

abbrev pub show_id : Option ℤ → String
show_id none = "None"
show_id (some n) = show n

abbrev pub show_priority : Option ℤ → Option String
show_priority none = none
show_priority (some n) = some (show n)

abbrev pub insert_if : String → Option String → Dict String → Dict String
insert_if header none headers = headers
insert_if header (some value) headers = insert header value headers

-- `DatadogHTTPPropagator.inject`
pub inject : Context → Dict String → Dict String
inject context headers =
    let with_ids =
      insert parent_id_header (show_id context.parent_span_id)
        (insert trace_id_header (show_id context.parent_trace_id) headers) in
    insert_if origin_header context.otel_origin
      (insert_if sampling_priority_header (show_priority context.sampling_priority) with_ids)

-- `int` of a header, 0 where it is missing
abbrev pub int_header : Option String → Option ℤ
int_header none = some (pos 0)
int_header (some value) = parse_int value

abbrev pub parsed_priority : Option ℤ → Option (Option ℤ)
parsed_priority none = none
parsed_priority (some n) = some (some n)

-- The sampling priority: nothing where it cannot be parsed.
abbrev pub priority_header : Option String → Option (Option ℤ)
priority_header none = some none
priority_header (some value) = parsed_priority (parse_int value)

-- The context of the parsed headers; the `except` returns a new one.
abbrev pub context_of : Option ℤ → Option ℤ → Option (Option ℤ) → Option String → Context
context_of (some trace_id) (some span_id) (some priority) origin =
    new_context (some trace_id) (some span_id) priority origin
context_of none span_id priority origin = empty_context
context_of (some trace_id) none priority origin = empty_context
context_of (some trace_id) (some span_id) none origin = empty_context

-- `DatadogHTTPPropagator.extract`
pub extract : Dict String → Context
extract [] = empty_context
extract (entry ∷ headers) =
    context_of (int_header (extract_header_value trace_id_names (entry ∷ headers)))
      (int_header (extract_header_value parent_id_names (entry ∷ headers)))
      (priority_header (extract_header_value sampling_priority_names (entry ∷ headers)))
      (extract_header_value origin_names (entry ∷ headers))
