-- ===== src/Traced/Tests.antt =====
-- A block that raises in a span, and its theorem applied to it.
use opentelemetry_auto_instr.Common.{ℕ, none, String, [], true, false, raised, user_error, Exec}
use opentelemetry_auto_instr.Value.{text}
use opentelemetry_auto_instr.Recorder.{trace}
use opentelemetry_auto_instr.Tracer.{StartArgs}
use opentelemetry_auto_instr.Pin.{Pins}
use opentelemetry_auto_instr.Traced.{Program, Readings, with_span, wrap_args}
use opentelemetry_auto_instr.Traced.Wrapped.{Wrapped, with_span-Wrapped}
use opentelemetry_auto_instr.Examples.{readings}
use opentelemetry_auto_instr.Examples.Ready.{ready, ready_traces, ready-Consistent_trace}

abbrev at : Readings
at = record {
  at_start = readings;
  at_end = readings;
  exc_info = λ e. record {
    is_set = true;
    type_name = "builtins.ValueError";
    value = text "no" none;
    traceback = "Traceback";
  };
  as_float = λ s. none;
}

abbrev request : StartArgs
request = record { name = ""; service = none; resource = none; span_type = none }

-- the rest of the program is a counter
abbrev body : ℕ → Exec (Program ℕ) String
body r p = (raised user_error, record p { rest = 5 })

abbrev no_pins : Pins
no_pins = record {
  pins = λ q. record {
    app = none;
    app_type = none;
    tags = none;
    tracer = 0;
    target = none;
    config = 0;
  };
  next_pin = 0;
  configs = λ c. [];
  next_config = 0;
  attached = λ o. none;
  classes = λ o. [];
  is_frozen = λ o. false;
  is_truthy = λ o. true;
  default_tracer = 0;
}

abbrev start : Program ℕ
start = record { tracing = ready; pins = no_pins; rest = 0 }

abbrev args : StartArgs
args = wrap_args none "app.handle" request

with_span-Wrapped_example :
    Wrapped at 0
      (body 0 (record start { tracing = (trace readings args ready).1 }))
      (with_span at args body start)
with_span-Wrapped_example =
    with_span-Wrapped at args body start 0 (ready_traces args) (ready-Consistent_trace args)
