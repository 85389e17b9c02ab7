-- ===== src/Contrib/Redis.antt =====
-- oteltrace/contrib/redis/util.py, patch.py: the commands of a Redis client. A function of the client
-- acts on the rest of the program.
pub mod Bounds
pub mod Transparent
mod Tests
use Prim.Native.String.{◌++◌}
use opentelemetry_auto_instr.Common.{
  ℕ, ◌+◌, ◌-◌, ltb, zero, suc, ℤ, pos, negsuc, Bool, true, false, Option, none, some, String, List,
  [], ◌∷◌, Dict, lookup, length, Exec, ◌>>=◌, ◌>>◌, pure, modify, str_eq, if◌then◌else◌,
}
use opentelemetry_auto_instr.Value.{
  Number, whole, Value, none_value, text, number, object, stringify, analytics_sample_rate_key,
}
use opentelemetry_auto_instr.World.{World, on_span}
use opentelemetry_auto_instr.Span.{set_metric, set_tag, set_tags}
use opentelemetry_auto_instr.Text.{text_length, take_text, join_by}
use opentelemetry_auto_instr.Tracer.{StartArgs}
use opentelemetry_auto_instr.Propagation.{show}
use opentelemetry_auto_instr.Pin.{Pin, Pins, service, onto, get_from}
use opentelemetry_auto_instr.Traced.{
  Program, Readings, with_span, on_tracing, on_rest, on_pins, enabled_pin, pin_tags,
}

abbrev pub value_max_len : ℕ
value_max_len = 100

abbrev pub cmd_max_len : ℕ
cmd_max_len = 1000

abbrev pub too_long_mark : String
too_long_mark = "..."

pub shorten : String → String
shorten cmd =
    if ltb value_max_len (text_length cmd)
    then take_text value_max_len cmd ++ too_long_mark
    else cmd

-- What a step of the loop of `format_command_args` appends, with `rest` for the steps after it.
pub append_cmd : String → ℕ → List String → List String
append_cmd cmd so_far rest =
    if ltb cmd_max_len (so_far + text_length cmd)
    then (take_text (cmd_max_len - so_far) cmd ++ too_long_mark) ∷ []
    else cmd ∷ rest

-- The loop, with the length so far
pub format_each : List Value → ℕ → List String
format_each [] so_far = []
format_each (arg ∷ args) so_far = elim (stringify arg) [
  | none ↦ "?" ∷ []
  | some s ↦ append_cmd (shorten s) so_far (format_each args (so_far + text_length (shorten s)))
]

-- `format_command_args`
pub format_command_args : List Value → String
format_command_args args = join_by " " (format_each args 0)

-- `value or 0`; an object counts as true
abbrev pub or_zero : Value → Value
or_zero none_value = number (whole (pos 0)) "0"
or_zero (text s f) = if str_eq s "" then number (whole (pos 0)) "0" else text s f
or_zero (number n s) = number n s
or_zero (object f s) = object f s

abbrev pub conn_tags_of : Option Value → Option Value → Option Value → Dict Value
conn_tags_of (some host) (some port) (some db) =
    ("out.host", host) ∷ ("out.port", port) ∷ ("out.redis_db", or_zero db) ∷ []
conn_tags_of none port db = []
conn_tags_of (some host) none db = []
conn_tags_of (some host) (some port) none = []

-- `_extract_conn_tags`: a missing key gives no tags
pub extract_conn_tags : Dict Value → Dict Value
extract_conn_tags conn = conn_tags_of (lookup "host" conn) (lookup "port" conn) (lookup "db" conn)

-- What the integration reads: the arguments of the connection, and the analytics rate of the settings,
-- as a value.
pub record Client : Type 0 where
  pub object : ℕ
  pub conn : Dict Value
  pub analytics : Value

abbrev pub raw_command_key : String
raw_command_key = "redis.raw_command"

abbrev pub count_value : ℕ → Value
count_value n = number (whole (pos n)) (show (pos n))

-- the tags of the span of a command
pub command_tags : Readings → Client → Pin → List Value → ℕ → Exec World Unit
command_tags at client pin args r = do
  modify (on_span r (λ span. record span { resource = format_command_args args }))
  set_tag r raw_command_key
      (text (format_command_args args) (at.as_float (format_command_args args)))
  set_tags r (pin_tags at.as_float pin)
  set_tags r (extract_conn_tags client.conn)
  modify (on_span r (set_metric "redis.args_length" (count_value (length args))))
  set_tag r analytics_sample_rate_key client.analytics

-- the tags of the span of a pipeline
pub pipeline_tags : Readings → Client → String → ℕ → ℕ → Exec World Unit
pipeline_tags at client resource count r = do
  modify (on_span r (λ span. record span { span_type = some "redis" }))
  set_tag r raw_command_key (text resource (at.as_float resource))
  set_tags r (extract_conn_tags client.conn)
  modify (on_span r (set_metric "redis.pipeline_length" (count_value count)))
  set_tag r analytics_sample_rate_key client.analytics

abbrev pub command_span : Option String → StartArgs
command_span service = record {
  name = "redis.command";
  service = service;
  resource = none;
  span_type = some "redis";
}

abbrev pub pipeline_span : String → Option String → StartArgs
pipeline_span resource service = record {
  name = "redis.command";
  service = service;
  resource = some resource;
  span_type = none;
}

-- `'\n'.join` of the commands of a pipeline
pub format_commands : List (List Value) → List String
format_commands [] = []
format_commands (args ∷ stack) = format_command_args args ∷ format_commands stack

module _ {X A : Type 0} where
  abbrev pub command_found :
      Readings → Client → List Value → Exec X A → Option Pin → Exec (Program X) A
  command_found at client args func none p = on_rest func p
  command_found at client args func (some pin) p =
      with_span at (command_span (service p.pins pin))
        (λ r. on_tracing (command_tags at client pin args r) >> on_rest func) p

  -- `traced_execute_command`
  pub traced_execute_command : Readings → Client → List Value → Exec X A → Exec (Program X) A
  traced_execute_command at client args func = do
    pin ← enabled_pin client.object
    command_found at client args func pin

  abbrev pub pipeline_found :
      Readings → Client → List (List Value) → Exec X A → Option Pin → Exec (Program X) A
  pipeline_found at client stack func none p = on_rest func p
  pipeline_found at client stack func (some pin) p =
      let resource = join_by "\n" (format_commands stack) in
      with_span at (pipeline_span resource (service p.pins pin))
        (λ r. on_tracing (pipeline_tags at client resource (length stack) r) >> on_rest func) p

  -- `traced_execute_pipeline`, with the commands that the pipeline holds
  pub traced_execute_pipeline :
      Readings → Client → List (List Value) → Exec X A → Exec (Program X) A
  traced_execute_pipeline at client stack func = do
    pin ← enabled_pin client.object
    pipeline_found at client stack func pin

abbrev pub pin_onto : Option ℕ × Pins → ℕ → Pins
pin_onto (none, s) obj = s
pin_onto (some q, s) obj = onto q obj s

module _ {X : Type 0} where
  -- `traced_pipeline`: the pipeline that the client makes gets the client's pin
  pub traced_pipeline : ℕ → Exec X ℕ → Exec (Program X) ℕ
  traced_pipeline instance_ func = do
    pipeline ← on_rest func
    on_pins (λ s. (pipeline, pin_onto (get_from instance_ s) pipeline))
