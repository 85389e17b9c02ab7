-- ===== src/Contrib/Redis/Tests.antt =====
-- oteltrace/contrib/redis/ at concrete commands, and its theorems applied to them.
use opentelemetry_auto_instr.Common.{
  ℕ, ◌≡◌, ◌≤◌, ◌+◌, refl, ◌==◌, Option, none, some, String, List, [], ◌∷◌, true, false, ok, Exec,
  if◌then◌else◌, length,
}
use opentelemetry_auto_instr.Value.{Value, none_value, text, object}
use opentelemetry_auto_instr.Text.{text_length, join_by}
use opentelemetry_auto_instr.Pin.{
  Pins, service_key, own_copy, clone, new_pin, onto, get_from, found, first_attached, service,
}
use opentelemetry_auto_instr.Traced.{Program, Readings}
use opentelemetry_auto_instr.Contrib.Passes.{Passes}
use opentelemetry_auto_instr.Contrib.Redis.{
  Client, shorten, append_cmd, format_each, format_command_args, traced_execute_command,
  command_span,
}
use opentelemetry_auto_instr.Contrib.Redis.Bounds.{format_command_args_bound}
use opentelemetry_auto_instr.Contrib.Redis.Transparent.{traced_execute_command-Passes}
use opentelemetry_auto_instr.Examples.{readings}
use opentelemetry_auto_instr.Examples.Ready.{ready, ready_traces}

-- bytes that are no text end the command
abbrev command : List Value
command = text "SET" none ∷ text "key" none ∷ object none none ∷ text "EX" none ∷ []

formatted : format_command_args command ≡ "SET key ?"
unfolding format_command_args format_each append_cmd shorten join_by
formatted = refl

format_command_args_bound_example :
    text_length (format_command_args command) ≤ 1003 + length command
format_command_args_bound_example = format_command_args_bound command

abbrev at : Readings
at = record {
  at_start = readings;
  at_end = readings;
  exc_info = λ e. record {
    is_set = true;
    type_name = "redis.exceptions.ConnectionError";
    value = text "refused" none;
    traceback = "Traceback";
  };
  as_float = λ s. none;
}

-- the pin stands on the class, object 7, of the client
abbrev pins : Pins
pins = record {
  pins = λ q. record {
    app = some "redis";
    app_type = some "db";
    tags = none;
    tracer = 0;
    target = some 7;
    config = 0;
  };
  next_pin = 1;
  configs = λ c. (service_key, some "redis") ∷ [];
  next_config = 1;
  attached = λ o. if o == 7 then some 0 else none;
  classes = λ o. 7 ∷ [];
  is_frozen = λ o. false;
  is_truthy = λ o. true;
  default_tracer = 0;
}

abbrev start : Program (List String)
start = record { tracing = ready; pins = pins; rest = [] }

abbrev client : Client
client = record { object = 1; conn = ("host", text "localhost" none) ∷ []; analytics = none_value }

-- the pins after the client got its copy
abbrev copied : Option ℕ × Pins
copied = get_from 1 pins

abbrev func : Exec (List String) String
func sent = (ok "OK", "SET" ∷ sent)

traced_execute_command-Passes_example :
    Passes func [] (traced_execute_command at client command func start)
unfolding get_from found first_attached own_copy clone new_pin onto
traced_execute_command-Passes_example =
    traced_execute_command-Passes at client func command start
      (tt, (0, ready_traces (command_span (service copied.1 (copied.1.pins 1)))))
