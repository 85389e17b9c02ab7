-- ===== src/Propagation/Tests.antt =====
-- oteltrace/propagation/datadog.py: headers that are read and written, and the round trips on them.
use opentelemetry_auto_instr.Common.{ok, ◌≡◌, refl, pos, negsuc, none, some, String, [], ◌∷◌, Dict}
use opentelemetry_auto_instr.World.{Context, World}
use opentelemetry_auto_instr.Tracer.{StartArgs, of_context, start_span}
use opentelemetry_auto_instr.Propagation.Distributed.{FollowsOn, start_span-FollowsOn}
use opentelemetry_auto_instr.Examples.{readings, idle}
use opentelemetry_auto_instr.Context.{empty_context, new_context}
use opentelemetry_auto_instr.Propagation.{
  skip_spaces, read_digits, parse_int, same_header, is_named, extract_header_value, inject, extract,
}
use opentelemetry_auto_instr.Propagation.RoundTrip.{extract-inject}

spaces_and_underscores : parse_int " +1_000 " ≡ some (pos 1000)
unfolding parse_int skip_spaces read_digits
spaces_and_underscores = refl

not_a_number : parse_int "12x" ≡ none
unfolding parse_int skip_spaces read_digits
not_a_number = refl

wsgi_headers :
    extract (("HTTP_X_DATADOG_TRACE_ID", "12") ∷ ("X-Datadog-Parent-Id", "34") ∷ [])
    ≡ new_context (some (pos 12)) (some (pos 34)) none none
unfolding extract extract_header_value is_named same_header parse_int skip_spaces read_digits
wsgi_headers = refl

invalid_headers : extract (("x-datadog-trace-id", "one") ∷ []) ≡ empty_context
unfolding extract extract_header_value is_named same_header parse_int skip_spaces read_digits
invalid_headers = refl

abbrev remote : Context
remote = record empty_context {
  parent_trace_id = some (pos 18446744073709551615);
  parent_span_id = some (pos 12);
  sampling_priority = some (negsuc 0);
  otel_origin = some "synthetics";
}

abbrev accept : Dict String
accept = ("Accept", "*/*") ∷ []

extract-inject_example :
    extract (inject remote accept)
    ≡ new_context
        (some (pos 18446744073709551615))
        (some (pos 12))
        (some (negsuc 0))
        (some "synthetics")
unfolding extract_header_value is_named same_header
extract-inject_example =
    extract-inject remote (pos 18446744073709551615) (pos 12) accept refl refl refl refl refl refl

abbrev serve : StartArgs
serve = record { name = "serve"; service = some "api"; resource = none; span_type = none }

-- A process that has the context of another one.
abbrev abroad : World
abroad = record idle { contexts = λ c. remote; next_context = 1 }

abbrev arrived : World
arrived = record idle { contexts = λ c. extract (inject remote accept); next_context = 1 }

start_span-FollowsOn_example :
    ((start_span readings serve (of_context 0) arrived).0 ≡ ok 0)
    × FollowsOn remote (start_span readings serve (of_context 0) arrived).1 0
unfolding extract_header_value is_named same_header
start_span-FollowsOn_example =
    start_span-FollowsOn remote (pos 18446744073709551615) (pos 12) accept readings serve 0 arrived
      refl refl refl refl refl refl refl refl tt
