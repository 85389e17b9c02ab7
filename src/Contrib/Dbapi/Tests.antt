-- ===== src/Contrib/Dbapi/Tests.antt =====
-- oteltrace/contrib/dbapi/__init__.py: a query of a cursor with a pin, and the theorems applied to it.
use opentelemetry_auto_instr.Common.{
  ℕ, ◌≡◌, refl, ◌==◌, none, some, String, [], ◌∷◌, true, false, raised, user_error, Exec,
  if◌then◌else◌, pos,
}
use opentelemetry_auto_instr.Value.{none_value, text}
use opentelemetry_auto_instr.Pin.{Pins, service_key, get_from, found, first_attached, service}
use opentelemetry_auto_instr.Traced.{Program, Readings, text_values}
use opentelemetry_auto_instr.Contrib.Passes.{Passes}
use opentelemetry_auto_instr.Contrib.Dbapi.{
  Database, Cursor, normalize_vendor, is_in, trace_method, span_args,
}
use opentelemetry_auto_instr.Contrib.Dbapi.Transparent.{trace_method-Passes}
use opentelemetry_auto_instr.Examples.{readings}
use opentelemetry_auto_instr.Examples.Ready.{ready, ready_traces}

postgres : normalize_vendor "psycopg2" ≡ "postgres"
unfolding normalize_vendor is_in
postgres = refl

sqlite : normalize_vendor "pysqlite2" ≡ "sqlite"
unfolding normalize_vendor is_in
sqlite = refl

abbrev at : Readings
at = record {
  at_start = readings;
  at_end = readings;
  exc_info = λ e. record {
    is_set = true;
    type_name = "psycopg2.DatabaseError";
    value = text "no table" none;
    traceback = "Traceback";
  };
  as_float = λ s. none;
}

-- object 1 has a pin of its own
abbrev pins : Pins
pins = record {
  pins = λ q. record {
    app = some "postgres";
    app_type = some "db";
    tags = some (("db.name", "test") ∷ []);
    tracer = 0;
    target = some 1;
    config = 0;
  };
  next_pin = 1;
  configs = λ c. (service_key, some "postgres") ∷ [];
  next_config = 1;
  attached = λ o. if o == 1 then some 0 else none;
  classes = λ o. [];
  is_frozen = λ o. false;
  is_truthy = λ o. true;
  default_tracer = 0;
}

-- the rest of the program is the number of queries
abbrev start : Program ℕ
start = record { tracing = ready; pins = pins; rest = 0 }

abbrev cursor : Cursor
cursor = record {
  proxy = 1;
  query_name = "postgres.query";
  last_operation = none;
  is_fetch = false;
}

abbrev db : Database ℕ
db = record { analytics = none_value; row_count = λ n. some (pos 3) }

abbrev fails : Exec ℕ String
fails n = (raised user_error, 1)

trace_method-Passes_example :
    Passes fails 0 (trace_method at db cursor "postgres.query" (some "select 1") [] fails start)
unfolding get_from found first_attached text_values
trace_method-Passes_example =
    trace_method-Passes at fails db cursor "postgres.query" (some "select 1") [] start tt (
      (refl, tt),
      (0, ready_traces (span_args "postgres.query" (service pins (pins.pins 0)) (some "select 1"))),
    )
