-- ===== src/Span.antt =====
-- oteltrace/span.py: the construction of spans, their tags, metrics and errors. `finish` is in
-- Recorder, since it records the trace. Log lines and printing are left out.
pub mod Tags
pub mod Keeps
pub mod Plain
use opentelemetry_auto_instr.Common.{
  ℕ, ◌==◌, ℤ, pos, nonzero, Bool, true, false, ◌&&◌, Option, none, some, String, List, [], ◌∷◌,
  Dict, lookup, insert, remove, contains, member, Result, ok, raised, attribute_error, Exec, ◌>>=◌,
  ◌>>◌, pure, modify, str_eq, if◌then◌else◌,
}
use opentelemetry_auto_instr.Value.{
  Number, whole, Value, text, to_float, stringify, is_real, numeric_tags, manual_drop_key,
  manual_keep_key, user_keep, user_reject,
}
use opentelemetry_auto_instr.World.{Span, Context, World, Env, on_span, on_context}

-- Python's `a or b`, for a text, a time and an id that may be missing, empty or zero.
abbrev pub or_text : Option String → String → String
or_text none d = d
or_text (some s) d = if str_eq s "" then d else s

abbrev pub or_time : Option ℕ → ℕ → ℕ
or_time none d = d
or_time (some t) d = if t == 0 then d else t

abbrev pub or_id : Option ℤ → ℤ → ℤ
or_id none d = d
or_id (some n) d = if nonzero n then n else d

-- The arguments of `Span(...)` after the tracer and the name.
pub record SpanArgs : Type 0 where
  pub service : Option String
  pub resource : Option String
  pub span_type : Option String
  pub trace_id : Option ℤ
  pub span_id : Option ℤ
  pub parent_id : Option ℤ
  pub start : Option ℕ
  pub context : Option ℕ

-- `Span.__init__`
unfoldable pub new_span : Env → Bool → String → SpanArgs → Span
new_span env has_tracer name args = record {
  name = name;
  service = args.service;
  resource = or_text args.resource name;
  span_type = args.span_type;
  meta = [];
  error = 0;
  metrics = [];
  start = or_time args.start env.now;
  duration = none;
  trace_id = or_id args.trace_id env.fresh_trace_id;
  span_id = or_id args.span_id env.fresh_span_id;
  parent_id = args.parent_id;
  has_tracer = has_tracer;
  sampled = true;
  context = args.context;
  parent = none;
  finished = false;
}

put_metric : String → Number → Span → Span
put_metric key n span =
    if is_real n then record span { metrics = insert key n span.metrics } else span

abbrev with_metric : String → Option Number → Span → Span
with_metric key none span = span
with_metric key (some n) span = put_metric key n span

-- `Span.set_metric`: what is no number is cast by `float`, and what cannot be cast, or is not
-- finite, is ignored.
unfoldable pub set_metric : String → Value → Span → Span
unfolding put_metric
set_metric key value span = with_metric key (to_float value) span

unfoldable pub get_metric : String → Span → Option Number
get_metric key span = lookup key span.metrics

abbrev with_meta : String → Option String → Span → Span
with_meta key none span = span
with_meta key (some s) span = record span { meta = insert key s span.meta }

-- The end of `Span.set_tag`, for a key with no meaning of its own.
unfoldable pub put_meta : String → Value → Span → Span
put_meta key value span = with_meta key (stringify value) span

set_priority_of : Option ℕ → ℤ → Exec World Unit
set_priority_of none priority w = (raised attribute_error, w)
set_priority_of (some c) priority w =
    (ok tt, on_context c (λ context. record context { sampling_priority = some priority }) w)

-- `self.context.sampling_priority = priority`, which raises for a span with no context
unfoldable pub set_priority : ℕ → ℤ → Exec World Unit
unfolding set_priority_of on_context
set_priority r priority w = set_priority_of (w.spans r).context priority w

-- `Span.set_tag`
unfoldable pub set_tag : ℕ → String → Value → Exec World Unit
set_tag r key value w =
    if member key numeric_tags
    then (ok tt, on_span r (set_metric key value) w)
    else if str_eq key manual_keep_key
    then set_priority r user_keep w
    else if str_eq key manual_drop_key
    then set_priority r user_reject w
    else (ok tt, on_span r (put_meta key value) w)

-- `Span.set_tags`
unfoldable pub set_tags : ℕ → Dict Value → Exec World Unit
set_tags r [] = pure tt
set_tags r ((key, value) ∷ tags) = do set_tag r key value; set_tags r tags

-- `Span.get_tag`
unfoldable pub get_tag : String → Span → Option String
get_tag key span = lookup key span.meta

-- `Span._remove_tag`
pub remove_tag : String → Span → Span
remove_tag key span =
    if contains key span.meta then record span { meta = remove key span.meta } else span

abbrev pub error_msg : String
error_msg = "error.msg"

abbrev pub error_type : String
error_type = "error.type"

abbrev pub error_stack : String
error_stack = "error.stack"

-- An exception as `sys.exc_info()` gives it, with its type's name and its formatted traceback;
-- `is_set` is whether all three of its parts are true.
pub record ExcInfo : Type 0 where
  pub is_set : Bool
  pub type_name : String
  pub value : Value
  pub traceback : String

-- `Span.set_exc_info`
unfoldable pub set_exc_info : ℕ → ExcInfo → Exec World Unit
set_exc_info r exc =
    if exc.is_set
    then (do
      modify (on_span r (λ span. record span { error = 1 }))
      set_tag r error_msg exc.value
      set_tag r error_type (text exc.type_name none)
      set_tag r error_stack (text exc.traceback none))
    else pure tt

-- `Span._remove_exc_info`
pub remove_exc_info : Span → Span
remove_exc_info span =
    remove_tag error_stack
      (remove_tag error_type (remove_tag error_msg (record span { error = 0 })))
