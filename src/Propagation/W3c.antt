-- ===== src/Propagation/W3c.antt =====
-- oteltrace/propagation/w3c.py: a context as the headers traceparent and tracestate. The regular
-- expressions are written out as the functions that decide their matches; texts are ASCII.
mod Tracestate
pub mod Fields
pub mod Members
pub mod State
pub mod RoundTrip
pub mod Total
mod Tests
unfoldable pub use Tracestate.*
use Prim.Native.Char.{Char, code}
use Prim.Native.String.{◌++◌}
use opentelemetry_auto_instr.Common.{
  ℕ, zero, suc, ◌+◌, ◌==◌, ℤ, pos, negsuc, Bool, true, false, not, ◌&&◌, ◌||◌, Option, none, some,
  String, List, [], ◌∷◌, Dict, lookup, insert, contains, leb, ltb, length, nonzero, mod_ℤ, str_eq,
  if◌then◌else◌, Result, ok, raised, key_error, type_error, value_error, Exec, ◌>>=◌, ◌>>◌, modify,
  pure, raise,
}
use opentelemetry_auto_instr.Text.{text_length, all_chars, is_lower}
use opentelemetry_auto_instr.Value.{auto_keep, auto_reject}
use opentelemetry_auto_instr.World.{Context}
use opentelemetry_auto_instr.Context.{empty_context, new_context}
use opentelemetry_auto_instr.Propagation.{codes}
use opentelemetry_auto_instr.Propagation.B3.{format_hex, parse_hex}

-- A context with the attribute `tracestate`, which `extract` sets and other contexts do not have.
pub record StateContext : Type 0 where
  pub context : Context
  pub tracestate : Option (Dict String)

abbrev pub no_context : StateContext
no_context = record { context = empty_context; tracestate = none }

abbrev pub traceparent_header : String
traceparent_header = "traceparent"

abbrev pub tracestate_header : String
tracestate_header = "tracestate"

-- `_SAMPLING_PRIORITY_MAP`, with `KeyError` for another priority; 0 where there is none
abbrev pub flag_of : Option ℤ → Result ℕ
flag_of none = ok 0
flag_of (some (pos zero)) = ok 0
flag_of (some (pos (suc zero))) = ok 1
flag_of (some (pos (suc (suc zero)))) = ok 1
flag_of (some (pos (suc (suc (suc n))))) = raised key_error
flag_of (some (negsuc zero)) = ok 0
flag_of (some (negsuc (suc n))) = raised key_error

-- `'00-{:032x}-{:016x}-{:02x}'.format(...)`, where an id that is not set raises
pub traceparent : Option ℤ → Option ℤ → ℕ → Result String
unfolding format_hex
traceparent none span_id flag = raised type_error
traceparent (some trace_id) none flag = raised type_error
traceparent (some trace_id) (some span_id) flag = ok (
    "00-"
    ++ (format_hex 32 trace_id
        ++ ("-" ++ (format_hex 16 span_id ++ ("-" ++ format_hex 2 (pos flag))))))

abbrev pub put_tracestate : Option (Dict String) → Dict String → Dict String
unfolding format_tracestate
put_tracestate none headers = headers
put_tracestate (some state) headers = insert tracestate_header (format_tracestate state) headers

abbrev pub put_traceparent : Option (Dict String) → Result String → Exec (Dict String) Unit
unfolding format_tracestate
put_traceparent state (raised e) = raise e
put_traceparent state (ok parent) = do
  modify (insert traceparent_header parent)
  modify (put_tracestate state)

abbrev pub inject_flag : StateContext → Result ℕ → Exec (Dict String) Unit
unfolding format_tracestate traceparent
inject_flag c (raised e) = raise e
inject_flag c (ok flag) =
    put_traceparent c.tracestate
      (traceparent c.context.parent_trace_id c.context.parent_span_id flag)

-- `W3CHTTPPropagator.inject`
pub inject : StateContext → Exec (Dict String) Unit
unfolding format_tracestate traceparent
inject c = inject_flag c (flag_of c.context.sampling_priority)

-- [0-9a-f]
abbrev pub is_lower_hex : Char → Bool
is_lower_hex c = (leb 48 (code c) && leb (code c) 57) || (leb 97 (code c) && leb (code c) 102)

-- ([0-9a-f]{n}), with the text after it
abbrev pub prepend : Char → Option (String × String) → Option (String × String)
prepend c none = none
prepend c (some (digits, rest)) = some (String.◌∷◌ c digits, rest)

pub take_hex : ℕ → String → Option (String × String)
take_hex zero s = some ("", s)
take_hex (suc n) String.[] = none
take_hex (suc n) (String.◌∷◌ c s) = if is_lower_hex c then prepend c (take_hex n s) else none

-- a dash, with the text after it
pub take_dash : String → Option String
take_dash String.[] = none
take_dash (String.◌∷◌ c s) = if code c == 45 then some s else none

-- `$`: the end, or a newline before it
abbrev pub at_end : String → Bool
at_end s = str_eq s "" || str_eq s "\n"

-- what `.*` leaves
pub skip_line : String → String
skip_line String.[] = ""
skip_line (String.◌∷◌ c s) = let rest = skip_line s in if code c == 10 then String.◌∷◌ c s else rest

-- `(-.*)?[ \t]*$`: nothing if it does not match, or else whether the group did
abbrev pub match_more : String → Option Bool
unfolding skip_blanks skip_line take_dash
match_more s = elim (take_dash s) [
  | some more ↦ if at_end (skip_line more) then some true else none
  | none ↦ if at_end (skip_blanks s) then some false else none
]

-- The groups of a match of `_TRACEPARENT_HEADER_FORMAT_RE`.
pub record Groups : Type 0 where
  pub version : String
  pub trace_id : String
  pub span_id : String
  pub options : String
  pub has_more : Bool

infixl 5 ◌>>?◌
abbrev pub ◌>>?◌ : {A B : Type 0} → Option A → (A → Option B) → Option B
none >>? f = none
some a >>? f = f a

-- `re.search(_TRACEPARENT_HEADER_FORMAT_RE, header)`
pub match_traceparent : String → Option Groups
unfolding skip_blanks take_hex take_dash skip_line
match_traceparent header = take_hex 2 (skip_blanks header) >>? λ (version, s₁).
    take_dash s₁ >>? λ t₁. take_hex 32 t₁ >>? λ (trace_id, s₂). take_dash s₂ >>? λ t₂.
    take_hex 16 t₂ >>? λ (span_id, s₃). take_dash s₃ >>? λ t₃. take_hex 2 t₃ >>? λ (options, s₄).
    match_more s₄ >>? λ has_more. some (record {
      version = version;
      trace_id = trace_id;
      span_id = span_id;
      options = options;
      has_more = has_more;
    })

-- `trace_options & 0x1`
abbrev pub is_odd : ℤ → Bool
is_odd n = mod_ℤ n 2 == 1

pub context_of_ids : Option ℤ → Option ℤ → Option ℤ → Dict String → Result StateContext
context_of_ids (some trace_id) (some span_id) (some options) state =
    if not (nonzero trace_id) || not (nonzero span_id)
    then ok no_context
    else ok (record {
      context =
          new_context (some trace_id) (some span_id)
            (some (if is_odd options then auto_keep else auto_reject)) none;
      tracestate = some state;
    })
context_of_ids trace_id span_id options state = raised value_error

-- `int(text, 16)`
abbrev pub hex_int : String → Option ℤ
unfolding parse_hex
hex_int s = parse_hex (codes s)

-- What `extract` makes of the groups that it matched.
pub of_groups : Option Groups → Option String → Result StateContext
unfolding context_of_ids parse_tracestate parse_hex
of_groups none state = ok no_context
of_groups (some g) state =
    if str_eq g.version "00" && g.has_more
    then ok no_context
    else if str_eq g.version "ff"
    then ok no_context
    else context_of_ids (hex_int g.trace_id) (hex_int g.span_id) (hex_int g.options)
        (parse_tracestate state)

-- What `extract` makes of the two headers; an empty traceparent counts as none.
pub of_parent : Option String → Option String → Result StateContext
of_parent none state = ok no_context
of_parent (some header) state =
    if str_eq header "" then ok no_context else of_groups (match_traceparent header) state

-- `W3CHTTPPropagator.extract`; empty headers have no traceparent
pub extract : Dict String → Result StateContext
unfolding of_parent of_groups match_traceparent
extract headers = of_parent (lookup traceparent_header headers) (lookup tracestate_header headers)
