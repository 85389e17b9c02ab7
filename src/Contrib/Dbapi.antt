-- ===== src/Contrib/Dbapi.antt =====
-- oteltrace/contrib/dbapi/__init__.py: cursors and connections of databases that are traced, and
-- oteltrace/ext/sql.py. A method of the database acts on the rest of the program.
pub mod Connections
pub mod Transactions
pub mod Transparent
mod Tests
use Prim.Native.String.{◌++◌}
use opentelemetry_auto_instr.Common.{
  ℕ, zero, suc, ℤ, pos, negsuc, Bool, true, false, not, ◌&&◌, ◌||◌, Option, none, some, String,
  List, [], ◌∷◌, Dict, Exec, ◌>>=◌, ◌>>◌, pure, modify, str_eq, if◌then◌else◌,
}
use opentelemetry_auto_instr.Value.{
  Number, whole, Value, none_value, text, number, object, analytics_sample_rate_key,
}
use opentelemetry_auto_instr.World.{World, on_span}
use opentelemetry_auto_instr.Span.{set_metric, set_tag, set_tags}
use opentelemetry_auto_instr.Tracer.{StartArgs}
use opentelemetry_auto_instr.Propagation.{show}
use opentelemetry_auto_instr.Pin.{Pin, PinArgs, Pins, service, new_pin, onto, get_from, no_args}
use opentelemetry_auto_instr.Traced.{
  Program, Readings, with_span, try_finally, on_tracing, on_rest, on_pins, enabled_pin, pin_tags,
}

abbrev pub sql_type : String
sql_type = "sql"

abbrev pub rows_key : String
rows_key = "sql.rows"

abbrev pub row_count_key : String
row_count_key = "db.rowcount"

abbrev pub starts_with : String → String → Bool
starts_with String.[] t = true
starts_with (String.◌∷◌ c s) String.[] = false
starts_with (String.◌∷◌ c s) (String.◌∷◌ d t) =
    str_eq (String.◌∷◌ c "") (String.◌∷◌ d "") && starts_with s t

-- `s in t`
pub is_in : String → String → Bool
is_in s String.[] = starts_with s ""
is_in s (String.◌∷◌ c t) = starts_with s (String.◌∷◌ c t) || is_in s t

-- `normalize_vendor`
pub normalize_vendor : String → String
normalize_vendor vendor =
    if str_eq vendor ""
    then "db"
    else if is_in "sqlite" vendor
    then "sqlite"
    else if is_in "postgres" vendor || str_eq vendor "psycopg2"
    then "postgres"
    else vendor

-- `TracedCursor`, an object with a pin; `is_fetch` is whether it is a `FetchTracedCursor`.
pub record Cursor : Type 0 where
  pub proxy : ℕ
  pub query_name : String
  pub last_operation : Option String
  pub is_fetch : Bool

-- What the integration reads besides: the analytics rate of the settings, as a value, and
-- `rowcount` of the database's cursor.
pub record Database (X : Type 0) : Type 0 where
  pub analytics : Value
  pub row_count : X → Option ℤ

abbrev pub row_count_value : Option ℤ → Value
row_count_value none = none_value
row_count_value (some n) = number (whole n) (show n)

-- `row_count and row_count >= 0`
abbrev pub has_rows : Option ℤ → Bool
has_rows none = false
has_rows (some (pos zero)) = false
has_rows (some (pos (suc n))) = true
has_rows (some (negsuc n)) = false

abbrev pub span_args : String → Option String → Option String → StartArgs
span_args name service resource = record {
  name = name;
  service = service;
  resource = resource;
  span_type = none;
}

-- The `finally` of `TracedCursor._trace_method`
pub set_rows : ℕ → Option ℤ → Exec World Unit
set_rows r rows = do
  modify (on_span r (set_metric row_count_key (row_count_value rows)))
  if has_rows rows then set_tag r rows_key (row_count_value rows) else pure tt

-- the tags of the span of a cursor's method
pub cursor_tags : Readings → Value → Bool → Pin → Dict Value → ℕ → Exec World Unit
cursor_tags at analytics is_fetch pin extra_tags r = do
  modify (on_span r (λ span. record span { span_type = some sql_type }))
  set_tags r (pin_tags at.as_float pin)
  set_tags r extra_tags
  if is_fetch then pure tt else set_tag r analytics_sample_rate_key analytics

module _ {X A : Type 0} where
  -- the body of the span of a cursor's method
  abbrev pub in_cursor_span :
      Readings → Database X → Bool → Pin → Dict Value → Exec X A → ℕ → Exec (Program X) A
  in_cursor_span at db is_fetch pin extra_tags method r = do
    on_tracing (cursor_tags at db.analytics is_fetch pin extra_tags r)
    try_finally (on_rest method) (λ p. on_tracing (set_rows r (db.row_count p.rest)) p)

  abbrev pub trace_found :
      Readings
      → Database X
      → Cursor
      → String
      → Option String
      → Dict Value
      → Exec X A
      → Option Pin
      → Exec (Program X) A
  trace_found at db cursor name resource extra_tags method none p = on_rest method p
  trace_found at db cursor name resource extra_tags method (some pin) p =
      with_span at (span_args name (service p.pins pin) resource)
        (in_cursor_span at db cursor.is_fetch pin extra_tags method) p

  -- `TracedCursor._trace_method`
  pub trace_method :
      Readings
      → Database X
      → Cursor
      → String
      → Option String
      → Dict Value
      → Exec X A
      → Exec (Program X) A
  trace_method at db cursor name resource extra_tags method = do
    pin ← enabled_pin cursor.proxy
    trace_found at db cursor name resource extra_tags method pin

  -- `execute`, `executemany` and `callproc`: the cursor afterwards, and the call.
  pub execute : Readings → Database X → Cursor → String → Exec X A → Cursor × Exec (Program X) A
  execute at db cursor query method =
      let cursor' = record cursor { last_operation = some query } in
      (cursor', trace_method at db cursor' cursor.query_name (some query) [] method)

  pub executemany : Readings → Database X → Cursor → String → Exec X A → Cursor × Exec (Program X) A
  executemany at db cursor query method =
      let cursor' = record cursor { last_operation = some query } in
      (
        cursor',
        trace_method at db cursor' cursor.query_name (some query)
            (("sql.executemany", text "true" none) ∷ []) method,
      )

  pub callproc : Readings → Database X → Cursor → String → Exec X A → Cursor × Exec (Program X) A
  callproc at db cursor proc method =
      let cursor' = record cursor { last_operation = some proc } in
      (cursor', trace_method at db cursor' cursor.query_name (some proc) [] method)

  -- `FetchTracedCursor.fetchone` and `fetchall`, by the name of the method
  pub fetch : Readings → Database X → Cursor → String → Exec X A → Exec (Program X) A
  fetch at db cursor method_name method =
      trace_method at db cursor (cursor.query_name ++ ("." ++ method_name)) cursor.last_operation []
        method

-- The arguments of `fetchmany` that tell how many rows are asked for.
pub record FetchArgs : Type 0 where
  pub size : Option Value
  pub positional : List Value
  pub array_size : Option ℕ

abbrev pub default_size : Option ℕ → Dict Value
default_size none = []
default_size (some zero) = []
default_size (some (suc n)) =
    ("db.fetch.size", number (whole (pos (suc n))) (show (pos (suc n)))) ∷ []

abbrev pub positional_size : List Value → Option ℕ → Dict Value
positional_size [] array_size = default_size array_size
positional_size (number (whole n) s ∷ []) array_size = ("db.fetch.size", number (whole n) s) ∷ []
positional_size (number (Number.fraction n d) s ∷ []) array_size = default_size array_size
positional_size (number Number.nan s ∷ []) array_size = default_size array_size
positional_size (number Number.infinite s ∷ []) array_size = default_size array_size
positional_size (none_value ∷ []) array_size = default_size array_size
positional_size (text s f ∷ []) array_size = default_size array_size
positional_size (object f s ∷ []) array_size = default_size array_size
positional_size (v ∷ u ∷ vs) array_size = default_size array_size

abbrev pub fetch_size : FetchArgs → Dict Value
fetch_size args = elim args.size [
  | some v ↦ ("db.fetch.size", v) ∷ []
  | none ↦ positional_size args.positional args.array_size
]

module _ {X A : Type 0} where
  -- `FetchTracedCursor.fetchmany`
  pub fetchmany : Readings → Database X → Cursor → FetchArgs → Exec X A → Exec (Program X) A
  fetchmany at db cursor args method =
      trace_method at db cursor (cursor.query_name ++ ".fetchmany") cursor.last_operation
        (fetch_size args) method
