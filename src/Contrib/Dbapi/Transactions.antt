-- ===== src/Contrib/Dbapi/Transactions.antt =====
-- oteltrace/contrib/dbapi/__init__.py: when a traced connection does what the database's does.
use opentelemetry_auto_instr.Common.{Option, none, some, String, Dict, Exec}
use opentelemetry_auto_instr.Value.{Value}
use opentelemetry_auto_instr.Span.{set_tags}
use opentelemetry_auto_instr.Span.Plain.{Plain}
use opentelemetry_auto_instr.Pin.{Pin, service, get_from}
use opentelemetry_auto_instr.Traced.{Program, Readings, enabled_pin, enabled_of, pin_tags, on_rest}
use opentelemetry_auto_instr.Contrib.Passes.{
  Passes, Traceable, set_tags_returns, on_rest-Passes, with_span-Passes, on_tracing-Passes,
}
use opentelemetry_auto_instr.Contrib.Dbapi.{span_args}
use opentelemetry_auto_instr.Contrib.Dbapi.Connections.{
  Connection, trace_connection_found, trace_connection_method, in_connection_span,
}

module _ {X A : Type 0} (at : Readings) (method : Exec X A) where
  trace_connection_found-Passes :
      (name : String) (extra : Dict Value) (pin : Option Pin) (p : Program X)
      → Plain extra
      → Traceable at (λ q. span_args name (service p.pins q) none) p.tracing pin
      → Passes method p.rest (trace_connection_found at name extra method pin p)
  trace_connection_found-Passes name extra none p plain t = on_rest-Passes method p
  trace_connection_found-Passes name extra (some pin) p plain (tags, (r, e)) =
      with_span-Passes method at _ (in_connection_span at pin extra method) p r e (λ w.
        on_tracing-Passes method (set_tags r (pin_tags at.as_float pin)) _
          (record p { tracing = w }) (set_tags_returns r _ w tags)
          (λ v.
            on_tracing-Passes method (set_tags r extra) (on_rest method) (record p { tracing = v })
              (set_tags_returns r extra v plain)
              (λ u. on_rest-Passes method (record p { tracing = u }))))

  -- A traced method of a connection (`commit` and `rollback` are calls of it), under the same conditions:
  -- it ends as the method of the database's connection does, and leaves the rest of the program so.
  pub trace_connection_method-Passes :
      (connection : Connection) (name : String) (extra : Dict Value) (p : Program X)
      → let found = get_from connection.proxy p.pins in
        Plain extra
        → Traceable at
            (λ q. span_args name (service found.1 q) none)
            p.tracing
            (enabled_of p.tracing.tracer.enabled found)
        → Passes method p.rest (trace_connection_method at connection name extra method p)
  unfolding enabled_pin trace_connection_method
  trace_connection_method-Passes connection name extra p plain t =
      let found = get_from connection.proxy p.pins in
      trace_connection_found-Passes name extra (enabled_of p.tracing.tracer.enabled found)
        (record p { pins = found.1 }) plain t
