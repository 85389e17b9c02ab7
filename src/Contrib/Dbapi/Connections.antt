-- ===== src/Contrib/Dbapi/Connections.antt =====
-- oteltrace/contrib/dbapi/__init__.py: connections that are traced, and the cursors that they make.
use Prim.Native.String.{◌++◌}
use opentelemetry_auto_instr.Common.{
  ℕ, Bool, Option, none, some, String, [], Dict, Exec, ◌>>=◌, ◌>>◌, str_eq, if◌then◌else◌,
}
use opentelemetry_auto_instr.Value.{Value}
use opentelemetry_auto_instr.Span.{set_tags}
use opentelemetry_auto_instr.Pin.{Pin, Pins, service, new_pin, onto, get_from, no_args}
use opentelemetry_auto_instr.Traced.{
  Program, Readings, with_span, on_tracing, on_rest, on_pins, enabled_pin, pin_tags,
}
use opentelemetry_auto_instr.Contrib.Dbapi.{Cursor, span_args, normalize_vendor}

-- `TracedConnection`, an object with a pin
pub record Connection : Type 0 where
  pub proxy : ℕ
  pub connection_name : String
  pub makes_fetch_cursors : Bool

abbrev pub pin_or_new : Option ℕ → String → Pins → ℕ × Pins
pin_or_new (some q) name s = (q, s)
pin_or_new none name s =
    new_pin (record no_args { service = some name; app = some name; app_type = some "db" }) [] s

-- `TracedConnection(conn, pin, cursor_cls)`: `module_name` is that of the connection's class, if it
-- can be read, and `fetch_cursors` whether the cursor class, or the setting, is that of traced fetches
pub traced_connection : ℕ → Option String → Option ℕ → Bool → Pins → Connection × Pins
traced_connection proxy module_name pin fetch_cursors s =
    let name = normalize_vendor (elim module_name [ none ↦ "sql" | some m ↦ m ]) in
    let (q, s') = pin_or_new pin name s in
    (
      record {
        proxy = proxy;
        connection_name = name ++ ".connection";
        makes_fetch_cursors = fetch_cursors;
      },
      onto q proxy s',
    )

abbrev pub app_or_sql : Option String → String
app_or_sql none = "sql"
app_or_sql (some app) = if str_eq app "" then "sql" else app

-- `TracedCursor(cursor, pin)`
pub traced_cursor : ℕ → ℕ → Bool → Pins → Cursor × Pins
traced_cursor proxy q is_fetch s = (
  record {
    proxy = proxy;
    query_name = app_or_sql (s.pins q).app ++ ".query";
    last_operation = none;
    is_fetch = is_fetch;
  },
  onto q proxy s,
)

abbrev pub cursor_of : Connection → ℕ → Option ℕ × Pins → Option Cursor × Pins
cursor_of connection proxy (none, s) = (none, s)
cursor_of connection proxy (some q, s) =
    let (cursor, s') = traced_cursor proxy q connection.makes_fetch_cursors s in (some cursor, s')

module _ {X : Type 0} where
  -- `TracedConnection.cursor`: the database makes a cursor, and `none` is that cursor as it is
  pub cursor : Connection → ℕ → Exec X Unit → Exec (Program X) (Option Cursor)
  cursor connection proxy make = do
    on_rest make
    on_pins (λ s. cursor_of connection proxy (get_from connection.proxy s))

module _ {X A : Type 0} where
  abbrev pub in_connection_span : Readings → Pin → Dict Value → Exec X A → ℕ → Exec (Program X) A
  in_connection_span at pin extra_tags method r = do
    on_tracing (set_tags r (pin_tags at.as_float pin))
    on_tracing (set_tags r extra_tags)
    on_rest method

  abbrev pub trace_connection_found :
      Readings → String → Dict Value → Exec X A → Option Pin → Exec (Program X) A
  trace_connection_found at name extra_tags method none p = on_rest method p
  trace_connection_found at name extra_tags method (some pin) p =
      with_span at (span_args name (service p.pins pin) none)
        (in_connection_span at pin extra_tags method) p

  -- `TracedConnection._trace_method`
  unfoldable pub trace_connection_method :
      Readings → Connection → String → Dict Value → Exec X A → Exec (Program X) A
  trace_connection_method at connection name extra_tags method = do
    pin ← enabled_pin connection.proxy
    trace_connection_found at name extra_tags method pin

  -- `commit` and `rollback`, by the name of the method
  pub end_transaction : Readings → Connection → String → Exec X A → Exec (Program X) A
  end_transaction at connection method_name method =
      trace_connection_method at connection (connection.connection_name ++ ("." ++ method_name)) []
        method
