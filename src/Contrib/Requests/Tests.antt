-- ===== src/Contrib/Requests/Tests.antt =====
-- oteltrace/contrib/requests/connection.py at a request, and the theorem applied to it.
use opentelemetry_auto_instr.Common.{
  ℕ, ◌≡◌, refl, none, some, String, [], ◌∷◌, true, false, ok, pos, Dict, Exec,
}
use opentelemetry_auto_instr.Value.{none_value, text}
use opentelemetry_auto_instr.Recorder.{trace}
use opentelemetry_auto_instr.Config.Dicts.{end}
use opentelemetry_auto_instr.Config.Http.{new_http}
use opentelemetry_auto_instr.Config.{Config, IntegrationConfig}
use opentelemetry_auto_instr.Pin.{Pins}
use opentelemetry_auto_instr.Traced.{Program, Readings}
use opentelemetry_auto_instr.Contrib.Passes.{Passes}
use opentelemetry_auto_instr.Contrib.Requests.{
  Request, Response, SessionConfig, extract_service_name, request_args, wrap_send,
}
use opentelemetry_auto_instr.Contrib.Requests.Sends.{sent, wrap_send-Sends}
use opentelemetry_auto_instr.Examples.{idle, readings}
use opentelemetry_auto_instr.Examples.Ready.{ready, ready_traces, ready_context}

abbrev at : Readings
at = record {
  at_start = readings;
  at_end = readings;
  exc_info = λ e. record {
    is_set = true;
    type_name = "requests.ConnectionError";
    value = text "refused" none;
    traceback = "Traceback";
  };
  as_float = λ s. none;
}

abbrev global : Config
global = record {
  integrations = [];
  http = record new_http { whitelist_headers = "server" ∷ [] };
  analytics_enabled = false;
  report_hostname = false;
}

abbrev config : IntegrationConfig
config = record { integration_name = "requests"; settings = end; hooks = []; http = new_http }

abbrev cfg : SessionConfig
cfg = record {
  split_by_domain = true;
  service_name = "requests";
  analytics_enabled = true;
  analytics_sample_rate = none_value;
  distributed_tracing = true;
}

abbrev request : Request
request = record {
  method = "get";
  headers = ("Accept", "*/*") ∷ [];
  uri = record {
    hostname = some "localhost";
    port = none;
    sanitized = "http://localhost/";
    query = "q=1";
  };
}

abbrev no_pins : Pins
no_pins = record {
  pins = λ q. record {
    app = none;
    app_type = none;
    tags = none;
    tracer = 0;
    target = none;
    config = 0;
  };
  next_pin = 0;
  configs = λ c. [];
  next_config = 0;
  attached = λ o. none;
  classes = λ o. [];
  is_frozen = λ o. false;
  is_truthy = λ o. true;
  default_tracer = 0;
}

abbrev start : Program ℕ
start = record { tracing = ready; pins = no_pins; rest = 0 }

abbrev func : Dict String → Exec ℕ Response
func headers n =
    (ok (record { status_code = pos 503; headers = some (("Server", text "nginx" none) ∷ []) }), 1)

-- the network location is the service
domain : extract_service_name cfg 0 (some "localhost") idle ≡ some "localhost"
unfolding extract_service_name
domain = refl

wrap_send-Sends_example :
    Passes
      (func (sent cfg ((trace readings request_args ready).1.contexts 0) request.headers))
      0
      (wrap_send at global config cfg request func start)
wrap_send-Sends_example =
    wrap_send-Sends at global config cfg request func start 0 0 refl (ready_traces request_args)
      (ready_context request_args)
