-- ===== src/Propagation/B3/Tests.antt =====
-- oteltrace/propagation/b3.py: headers that are read and written, and the round trips on them.
use opentelemetry_auto_instr.Common.{
  ◌≡◌, refl, pos, negsuc, none, some, [], ◌∷◌, lookup, ok, raised, value_error,
}
use opentelemetry_auto_instr.Value.{auto_keep}
use opentelemetry_auto_instr.World.{Context}
use opentelemetry_auto_instr.Context.{empty_context, new_context}
use opentelemetry_auto_instr.Propagation.{codes, skip_spaces}
use opentelemetry_auto_instr.Propagation.B3.{
  read_hex, parse_hex, show_hex, zeros, format_hex, split_dash, of_headers, inject, extract,
}
use opentelemetry_auto_instr.Propagation.B3.RoundTrip.{extract-inject_b3}

padded : format_hex 16 (pos 48879) ≡ "000000000000beef"
unfolding format_hex show_hex zeros
padded = refl

negative : format_hex 8 (negsuc 9) ≡ "-000000a"
unfolding format_hex show_hex zeros
negative = refl

prefixed : parse_hex (codes " 0x_Be_ef") ≡ some (pos 48879)
unfolding parse_hex skip_spaces read_hex
prefixed = refl

single_header :
    extract (("b3", "2a-b-d-1") ∷ [])
    ≡ ok (new_context (some (pos 42)) (some (pos 11)) (some auto_keep) none)
unfolding extract of_headers split_dash parse_hex skip_spaces read_hex lookup
single_header = refl

not_caught : extract (("x-b3-traceid", "xyz") ∷ []) ≡ raised value_error
unfolding extract of_headers parse_hex skip_spaces read_hex lookup
not_caught = refl

abbrev kept : Context
kept = record empty_context {
  parent_trace_id = some (pos 7);
  parent_span_id = some (pos 8);
  sampling_priority = some (pos 2);
}

extract-inject_b3_example :
    ((inject kept []).0 ≡ ok tt)
    × (extract (inject kept []).1
        ≡ ok (new_context (some (pos 7)) (some (pos 8)) (some auto_keep) none))
unfolding lookup
extract-inject_b3_example = extract-inject_b3 kept 7 8 [] refl refl refl refl refl
