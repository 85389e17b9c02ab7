-- ===== src/Contrib/Redis/Transparent.antt =====
-- oteltrace/contrib/redis/patch.py: when an instrumented client does what the client does.
use opentelemetry_auto_instr.Common.{
  ℕ, ◌≡◌, refl, Option, none, some, String, List, length, Dict, ok, Exec, lookup,
}
use opentelemetry_auto_instr.Value.{Value}
use opentelemetry_auto_instr.World.{World}
use opentelemetry_auto_instr.Span.{set_tag, set_tags}
use opentelemetry_auto_instr.Span.Plain.{Plain}
use opentelemetry_auto_instr.Text.{join_by}
use opentelemetry_auto_instr.Pin.{Pin, service, get_from}
use opentelemetry_auto_instr.Traced.{Program, Readings, enabled_pin, enabled_of, pin_tags}
use opentelemetry_auto_instr.Contrib.Passes.{
  Passes, Traceable, Startable, then_returns, set_tags_returns, on_rest-Passes, with_span-Passes,
  on_tracing-Passes,
}
use opentelemetry_auto_instr.Contrib.Redis.{
  Client, conn_tags_of, extract_conn_tags, command_tags, pipeline_tags, command_span, pipeline_span,
  command_found, traced_execute_command, pipeline_found, traced_execute_pipeline, format_commands,
}

conn_tags-Plain : (host port db : Option Value) → Plain (conn_tags_of host port db)
conn_tags-Plain none port db = tt
conn_tags-Plain (some host) none db = tt
conn_tags-Plain (some host) (some port) none = tt
conn_tags-Plain (some host) (some port) (some db) = (refl, (refl, (refl, tt)))

extract_conn_tags-Plain : (conn : Dict Value) → Plain (extract_conn_tags conn)
unfolding extract_conn_tags
extract_conn_tags-Plain conn =
    conn_tags-Plain (lookup "host" conn) (lookup "port" conn) (lookup "db" conn)

command_tags_returns :
    (at : Readings) (client : Client) (pin : Pin) (args : List Value) (r : ℕ) (w : World)
    → Plain (pin_tags at.as_float pin)
    → (command_tags at client pin args r w).0 ≡ ok tt
unfolding command_tags set_tag
command_tags_returns at client pin args r w plain =
    then_returns (set_tags r (pin_tags at.as_float pin)) _ _ (set_tags_returns r _ _ plain) (λ v.
      then_returns (set_tags r (extract_conn_tags client.conn)) _ v
        (set_tags_returns r _ v (extract_conn_tags-Plain client.conn)) (λ u. refl))

pipeline_tags_returns :
    (at : Readings) (client : Client) (resource : String) (count r : ℕ) (w : World)
    → (pipeline_tags at client resource count r w).0 ≡ ok tt
unfolding pipeline_tags set_tag
pipeline_tags_returns at client resource count r w =
    then_returns (set_tags r (extract_conn_tags client.conn)) _ _
      (set_tags_returns r _ _ (extract_conn_tags-Plain client.conn)) (λ u. refl)

module _ {X A : Type 0} (at : Readings) (client : Client) (func : Exec X A) where
  command_found-Passes :
      (args : List Value) (pin : Option Pin) (p : Program X)
      → Traceable at (λ q. command_span (service p.pins q)) p.tracing pin
      → Passes func p.rest (command_found at client args func pin p)
  command_found-Passes args none p t = on_rest-Passes func p
  command_found-Passes args (some pin) p (tags, (r, e)) = with_span-Passes func at _ _ p r e (λ w.
      on_tracing-Passes func (command_tags at client pin args r) _ (record p { tracing = w })
        (command_tags_returns at client pin args r w tags)
        (λ v. on_rest-Passes func (record p { tracing = v })))

  -- A command of an instrumented client that has no enabled pin, or whose pin has tags that choose no
  -- sampling priority by hand, with a tracer that starts the span: it returns what the client's function
  -- returns, or raises what that raises, and leaves the rest of the program as that does.
  pub traced_execute_command-Passes :
      (args : List Value) (p : Program X)
      → let found = get_from client.object p.pins in
        Traceable at
          (λ q. command_span (service found.1 q))
          p.tracing
          (enabled_of p.tracing.tracer.enabled found)
        → Passes func p.rest (traced_execute_command at client args func p)
  unfolding enabled_pin traced_execute_command
  traced_execute_command-Passes args p t =
      let found = get_from client.object p.pins in
      command_found-Passes args (enabled_of p.tracing.tracer.enabled found)
        (record p { pins = found.1 }) t

  pipeline_found-Passes :
      (stack : List (List Value)) (pin : Option Pin) (p : Program X)
      → Startable at
          (λ q. pipeline_span (join_by "\n" (format_commands stack)) (service p.pins q))
          p.tracing
          pin
      → Passes func p.rest (pipeline_found at client stack func pin p)
  pipeline_found-Passes stack none p t = on_rest-Passes func p
  pipeline_found-Passes stack (some pin) p (r, e) =
      let resource = join_by "\n" (format_commands stack) in
      with_span-Passes func at _ _ p r e (λ w.
        on_tracing-Passes func (pipeline_tags at client resource (length stack) r) _
          (record p { tracing = w }) (pipeline_tags_returns at client resource (length stack) r w)
          (λ v. on_rest-Passes func (record p { tracing = v })))

  -- The same holds of a pipeline of commands, whatever the tags of the pin are.
  pub traced_execute_pipeline-Passes :
      (stack : List (List Value)) (p : Program X)
      → let found = get_from client.object p.pins in
        Startable at
          (λ q. pipeline_span (join_by "\n" (format_commands stack)) (service found.1 q))
          p.tracing
          (enabled_of p.tracing.tracer.enabled found)
        → Passes func p.rest (traced_execute_pipeline at client stack func p)
  unfolding enabled_pin traced_execute_pipeline
  traced_execute_pipeline-Passes stack p t =
      let found = get_from client.object p.pins in
      pipeline_found-Passes stack (enabled_of p.tracing.tracer.enabled found)
        (record p { pins = found.1 }) t
