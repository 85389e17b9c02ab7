-- ===== src/Contrib/Dbapi/Transparent.antt =====
-- oteltrace/contrib/dbapi/__init__.py: when a traced cursor does what the database's does.
use opentelemetry_auto_instr.Common.{
  ℕ, ◌≡◌, refl, Bool, Option, none, some, String, Dict, ok, Exec, Bool-cases, inl, inr, ℤ,
}
use opentelemetry_auto_instr.Value.{Value}
use opentelemetry_auto_instr.World.{World}
use opentelemetry_auto_instr.Span.{set_tag, set_tags}
use opentelemetry_auto_instr.Span.Plain.{Plain}
use opentelemetry_auto_instr.Pin.{Pin, service, get_from}
use opentelemetry_auto_instr.Traced.{Program, Readings, enabled_pin, enabled_of, pin_tags}
use opentelemetry_auto_instr.Contrib.Passes.{
  Passes, Traceable, then_returns, set_tags_returns, on_rest-Passes, with_span-Passes,
  on_tracing-Passes, try_finally-Passes,
}
use opentelemetry_auto_instr.Contrib.Dbapi.{
  Database, Cursor, span_args, cursor_tags, set_rows, has_rows, trace_found, trace_method,
  in_cursor_span,
}

set_rows_returns : (r : ℕ) (rows : Option ℤ) (w : World) → (set_rows r rows w).0 ≡ ok tt
unfolding set_rows set_tag
set_rows_returns r rows w = elim (Bool-cases (has_rows rows)) [
  | inl b ↦ rw b refl
  | inr b ↦ rw b refl
]

cursor_tags_returns :
    (at : Readings) (analytics : Value) (is_fetch : Bool) (pin : Pin) (extra : Dict Value) (r : ℕ)
    (w : World)
    → Plain (pin_tags at.as_float pin)
    → Plain extra
    → (cursor_tags at analytics is_fetch pin extra r w).0 ≡ ok tt
unfolding cursor_tags set_tag
cursor_tags_returns at analytics is_fetch pin extra r w plain plain' =
    then_returns (set_tags r (pin_tags at.as_float pin)) _ _ (set_tags_returns r _ _ plain) (λ v.
      then_returns (set_tags r extra) _ v (set_tags_returns r extra v plain')
        (λ u. elim (Bool-cases is_fetch) [ inl b ↦ rw b refl | inr b ↦ rw b refl ]))

module _ {X A : Type 0} (at : Readings) (method : Exec X A) where
  trace_found-Passes :
      (db : Database X) (cursor : Cursor) (name : String) (resource : Option String)
      (extra : Dict Value) (pin : Option Pin) (p : Program X)
      → Plain extra
      → Traceable at (λ q. span_args name (service p.pins q) resource) p.tracing pin
      → Passes method p.rest (trace_found at db cursor name resource extra method pin p)
  trace_found-Passes db cursor name resource extra none p plain t = on_rest-Passes method p
  trace_found-Passes db cursor name resource extra (some pin) p plain (tags, (r, e)) =
      with_span-Passes method at _ (in_cursor_span at db cursor.is_fetch pin extra method) p r e
        (λ w.
          on_tracing-Passes method (cursor_tags at db.analytics cursor.is_fetch pin extra r) _
            (record p { tracing = w })
            (cursor_tags_returns at db.analytics cursor.is_fetch pin extra r w tags plain)
            (λ v.
              try_finally-Passes method (λ x. set_rows r (db.row_count x))
                (record p { tracing = v }) (λ x u. set_rows_returns r (db.row_count x) u)))

  -- A traced method of a cursor (`execute`, `executemany`, `callproc` and the fetches are calls of it),
  -- with tags of the call that choose no sampling priority by hand, where the object has no enabled pin,
  -- or the pin's tags choose none either and the tracer starts the span: it returns what the method of
  -- the database's cursor returns, or raises what that raises, and leaves the rest of the program as that
  -- does.
  pub trace_method-Passes :
      (db : Database X) (cursor : Cursor) (name : String) (resource : Option String)
      (extra : Dict Value) (p : Program X)
      → let found = get_from cursor.proxy p.pins in
        Plain extra
        → Traceable at
            (λ q. span_args name (service found.1 q) resource)
            p.tracing
            (enabled_of p.tracing.tracer.enabled found)
        → Passes method p.rest (trace_method at db cursor name resource extra method p)
  unfolding enabled_pin trace_method
  trace_method-Passes db cursor name resource extra p plain t =
      let found = get_from cursor.proxy p.pins in
      trace_found-Passes db cursor name resource extra (enabled_of p.tracing.tracer.enabled found)
        (record p { pins = found.1 }) plain t
