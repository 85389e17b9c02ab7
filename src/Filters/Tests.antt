-- ===== src/Filters/Tests.antt =====
-- oteltrace/filters.py: the filter on two traces.
use opentelemetry_auto_instr.Common.{◌≡◌, [], ◌∷◌, ok, str_eq, lookup}
use opentelemetry_auto_instr.World.{Span}
use opentelemetry_auto_instr.Span.{get_tag}
use opentelemetry_auto_instr.Writer.{filter_all}
use opentelemetry_auto_instr.Filters.{Regexps, process_trace}
use opentelemetry_auto_instr.Filters.Urls.{filter_all-process_trace}
use opentelemetry_auto_instr.Examples.{blank}

abbrev healthcheck : Span
healthcheck = record blank { meta = ("http.url", "/health") ∷ [] }

abbrev page : Span
page = record blank { meta = ("http.url", "/index") ∷ [] }

abbrev health_only : Regexps
health_only = (λ url. str_eq url "/health") ∷ []

filter_all-process_trace_example :
    filter_all (process_trace health_only ∷ []) ((healthcheck ∷ []) ∷ (page ∷ []) ∷ [])
    ≡ ok ((page ∷ []) ∷ [])
unfolding get_tag lookup
filter_all-process_trace_example =
    filter_all-process_trace health_only ((healthcheck ∷ []) ∷ (page ∷ []) ∷ [])
