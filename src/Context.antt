-- ===== src/Context.antt =====
-- oteltrace/context.py: `class Context`. Its lock, and the debug lines of `close_span`, are left out.
pub mod Consistent
pub mod Adding
pub mod Closing
mod Root
pub mod Left
pub mod Taking
pub mod Whole
use opentelemetry_auto_instr.Common.{
  ℕ, zero, suc, ◌+◌, ◌==◌, ℤ, pos, Bool, true, false, not, ◌&&◌, Option, none, some, String, List,
  [], ◌∷◌, ◌++◌, length, head?, any_of, keep, leb, Result, ok, raised, index_error, Exec, ◌>>=◌,
  ◌>>◌, pure, raise, gets, modify, if◌then◌else◌, is_some,
}
use opentelemetry_auto_instr.Value.{
  Number, whole, Value, text, number, sampling_priority_key, origin_key, hostname_key,
}
use opentelemetry_auto_instr.World.{Span, Context, World, on_span, on_context}
use opentelemetry_auto_instr.Span.{set_metric, set_tag}

-- `Context(trace_id, span_id, sampling_priority, _otel_origin)`
unfoldable pub new_context : Option ℤ → Option ℤ → Option ℤ → Option String → Context
new_context trace_id span_id sampling_priority origin = record {
  trace = [];
  finished_spans = 0;
  current_span = none;
  parent_trace_id = trace_id;
  parent_span_id = span_id;
  sampling_priority = sampling_priority;
  otel_origin = origin;
}

abbrev pub empty_context : Context
empty_context = record {
  trace = [];
  finished_spans = 0;
  current_span = none;
  parent_trace_id = none;
  parent_span_id = none;
  sampling_priority = none;
  otel_origin = none;
}

-- `clone`: all but the spans, and but the origin
unfoldable pub clone : Context → Context
unfolding new_context
clone context =
    record (new_context context.parent_trace_id context.parent_span_id context.sampling_priority
      none) { current_span = context.current_span }

-- `get_current_root_span`
unfoldable pub get_current_root_span : Context → Option ℕ
get_current_root_span context = head? context.trace

-- `_set_current_span`
unfoldable pub set_current_span : World → Option ℕ → Context → Context
set_current_span w none context = record context { current_span = none; parent_span_id = none }
set_current_span w (some r) context = record context {
  current_span = some r;
  parent_trace_id = some (w.spans r).trace_id;
  parent_span_id = some (w.spans r).span_id;
}

-- `add_span`
unfoldable pub add_span : ℕ → ℕ → World → World
unfolding on_span on_context set_current_span
add_span c r w =
    on_span r (λ span. record span { context = some c })
      (on_context c
        (λ context.
          let context' = set_current_span w (some r) context in
          record context' { trace = context'.trace ++ r ∷ [] })
        w)

-- `close_span`
unfoldable pub close_span : ℕ → ℕ → World → World
unfolding on_context set_current_span
close_span c r w =
    on_context c
      (λ context.
        set_current_span w (w.spans r).parent
          (record context { finished_spans = context.finished_spans + 1 }))
      w

abbrev pub is_finished : World → ℕ → Bool
is_finished w r = (w.spans r).finished

-- `_is_sampled`
unfoldable pub is_sampled : World → List ℕ → Bool
is_sampled w trace = any_of (λ r. (w.spans r).sampled) trace

-- `trace[0].set_metric(SAMPLING_PRIORITY_KEY, sampling_priority)`
unfoldable pub tag_priority : ℕ → Option ℤ → World → World
unfolding on_span
tag_priority r none w = w
tag_priority r (some priority) w =
    on_span r (set_metric sampling_priority_key (number (whole priority) "")) w

-- `trace[0].set_tag(ORIGIN_KEY, origin)`
unfoldable pub tag_origin : ℕ → Option String → Exec World Unit
tag_origin r none = pure tt
tag_origin r (some origin) = set_tag r origin_key (text origin none)

-- The tags that `get` attaches to the first span of a trace; with the host's name asked for and no
-- span there, it raises.
unfoldable pub tag_root : List ℕ → Bool → Context → Exec World Unit
unfolding tag_priority tag_origin
tag_root [] sampled context w =
    (if w.settings.report_hostname then raise index_error else pure tt) w
tag_root (r ∷ trace) sampled context w =
    (do
      modify (if sampled then tag_priority r context.sampling_priority else λ w'. w')
      if sampled then tag_origin r context.otel_origin else pure tt
      if w.settings.report_hostname
          then set_tag r hostname_key (text w.settings.hostname none)
          else pure tt)
      w

-- The context after its whole trace was taken.
abbrev pub reset : Context → Context
reset context = record context {
  trace = [];
  finished_spans = 0;
  parent_trace_id = none;
  parent_span_id = none;
  sampling_priority = none;
}

abbrev pub Taken : Type 0
Taken = Option (List ℕ × Bool)

-- `get` where all the spans are finished
unfoldable pub take_all : ℕ → Exec World Taken
unfolding tag_root is_sampled on_context
take_all c w =
    let context = w.contexts c in
    let sampled = is_sampled w context.trace in
    (do
      tag_root context.trace sampled context
      modify (on_context c reset)
      pure (some (context.trace, sampled)))
      w

-- `get` where some span is not finished and the finished ones are enough to flush
unfoldable pub take_finished : ℕ → Exec World Taken
unfolding tag_root is_sampled on_context
take_finished c w =
    let context = w.contexts c in
    let sampled = is_sampled w context.trace in
    (do
      tag_root context.trace sampled context
      modify (λ w'.
          on_context c
            (λ context'. record context' {
              finished_spans = 0;
              trace = keep (λ r. not (is_finished w' r)) context'.trace;
            })
            w')
      pure (some (keep (is_finished w) context.trace, sampled)))
      w

-- `Context.get`
unfoldable pub get : ℕ → Exec World Taken
get c w =
    let context = w.contexts c in
    if context.finished_spans == length context.trace
    then take_all c w
    else if w.settings.partial_flush_enabled
        && leb w.settings.partial_flush_min_spans (length (keep (is_finished w) context.trace))
    then take_finished c w
    else (ok none, w)
