-- ===== src/Contrib/Elasticsearch/Tests.antt =====
-- oteltrace/contrib/elasticsearch/ at concrete requests, and its theorems applied to them.
use Prim.Native.String.{◌++◌}
use opentelemetry_auto_instr.Common.{
  ℕ, ◌≡◌, refl, ◌==◌, none, some, String, [], ◌∷◌, true, false, ok, Exec, if◌then◌else◌,
}
use opentelemetry_auto_instr.Value.{none_value, text}
use opentelemetry_auto_instr.Pin.{Pins, service_key, get_from, found, first_attached}
use opentelemetry_auto_instr.Traced.{Program, Readings}
use opentelemetry_auto_instr.Contrib.Passes.{Passes}
use opentelemetry_auto_instr.Contrib.Elasticsearch.{
  Search, Outcome, sub_ids, sub_indexes, quantized_url, perform_request, search_span,
}
use opentelemetry_auto_instr.Contrib.Elasticsearch.Quantized.{no_number, quantized_url_clean}
use opentelemetry_auto_instr.Contrib.Elasticsearch.Transparent.{Complete, perform_request-Passes}
use opentelemetry_auto_instr.Examples.{readings}
use opentelemetry_auto_instr.Examples.Ready.{ready, ready_traces}

identifiers : quantized_url "/i1/42/7/log-2019.5?x" ≡ "/i1/?/7/log-?.5?x"
unfolding quantized_url sub_ids sub_indexes
identifiers = refl

last_identifier : quantized_url "/index/7" ≡ "/index/?"
unfolding quantized_url sub_ids sub_indexes
last_identifier = refl

quantized_url_clean_example :
    (quantized_url ("/log-2019/doc" ++ String.◌∷◌ "/" ("7" ++ "/_source"))
      ≡ quantized_url ("/log-2019/doc" ++ String.◌∷◌ "/" ("415" ++ "/_source")))
    × (no_number false (quantized_url ("/log-2019/doc" ++ String.◌∷◌ "/" ("7" ++ "/_source")))
        ≡ true)
quantized_url_clean_example =
    quantized_url_clean "/log-2019/doc" "7" "415" "/_source" refl refl refl refl

abbrev at : Readings
at = record {
  at_start = readings;
  at_end = readings;
  exc_info = λ e. record {
    is_set = true;
    type_name = "elasticsearch.TransportError";
    value = text "refused" none;
    traceback = "Traceback";
  };
  as_float = λ s. none;
}

-- object 1 has a pin of its own
abbrev pins : Pins
pins = record {
  pins = λ q. record {
    app = some "elasticsearch";
    app_type = some "db";
    tags = none;
    tracer = 0;
    target = some 1;
    config = 0;
  };
  next_pin = 1;
  configs = λ c. (service_key, some "elasticsearch") ∷ [];
  next_config = 1;
  attached = λ o. if o == 1 then some 0 else none;
  classes = λ o. [];
  is_frozen = λ o. false;
  is_truthy = λ o. true;
  default_tracer = 0;
}

abbrev start : Program ℕ
start = record { tracing = ready; pins = pins; rest = 0 }

abbrev search : Search
search = record {
  transport = 1;
  args = "GET" ∷ "/log-2019/42" ∷ [];
  params = some "";
  body = ok (text "{}" none);
  trace_query_string = false;
  analytics = none_value;
}

abbrev outcome : Outcome String
outcome = record { error_status = λ e. none; status = λ s. none; took = λ s. none }

abbrev func : Exec ℕ String
func n = (ok "hits", 1)

complete : Complete search
complete = record {
  method = "GET";
  url = "/log-2019/42";
  params = "";
  body = text "{}" none;
  has_args = refl;
  has_params = refl;
  has_body = refl;
}

perform_request-Passes_example : Passes func 0 (perform_request at search outcome func start)
unfolding get_from found first_attached
perform_request-Passes_example =
    perform_request-Passes at search outcome func start complete (0, ready_traces search_span)
