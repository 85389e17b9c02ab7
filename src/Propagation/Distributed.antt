-- ===== src/Propagation/Distributed.antt =====
-- oteltrace/propagation/datadog.py with oteltrace/tracer.py: a trace that goes on in another process.
use opentelemetry_auto_instr.Common.{
  ℕ, ℤ, ◌≡◌, sym, ◌∙◌, ap, true, none, some, String, Dict, ok, nonzero,
}
use opentelemetry_auto_instr.World.{Context, World, Env}
use opentelemetry_auto_instr.Span.Plain.{Plain}
use opentelemetry_auto_instr.Context.{new_context}
use opentelemetry_auto_instr.Tracer.{of_context, StartArgs, start_span}
use opentelemetry_auto_instr.Tracer.Remote.{start_span-Continues}
use opentelemetry_auto_instr.Propagation.{
  trace_id_names, parent_id_names, sampling_priority_names, origin_names, extract_header_value,
  inject, extract,
}
use opentelemetry_auto_instr.Propagation.RoundTrip.{extract-inject}

-- What the first span of another process takes over from the context that was injected.
pub record FollowsOn (context : Context) (w : World) (r : ℕ) : Type 0 where
  pub same_trace : some (w.spans r).trace_id ≡ context.parent_trace_id
  pub remote_parent : (w.spans r).parent_id ≡ context.parent_span_id
  pub no_local_parent : (w.spans r).parent ≡ none

-- A context with a trace id other than 0 and a span id is injected into headers with none of the
-- tracing headers; another process, whose tracer has no tag that chooses a priority by hand, extracts
-- it into its context c. There `start_span` returns a span of the same trace whose parent is the
-- span of the context that was injected.
pub start_span-FollowsOn :
    (context : Context) (trace_id span_id : ℤ) (headers : Dict String) (env : Env)
    (args : StartArgs) (c : ℕ) (w : World)
    → context.parent_trace_id ≡ some trace_id
    → context.parent_span_id ≡ some span_id
    → nonzero trace_id ≡ true
    → extract_header_value trace_id_names headers ≡ none
    → extract_header_value parent_id_names headers ≡ none
    → extract_header_value sampling_priority_names headers ≡ none
    → extract_header_value origin_names headers ≡ none
    → w.contexts c ≡ extract (inject context headers)
    → Plain w.tracer.tags
    → let x = start_span env args (of_context c) w in
      (x.0 ≡ ok w.next_span) × FollowsOn context x.1 w.next_span
unfolding new_context
start_span-FollowsOn context trace_id span_id headers env args c w traced spanned valid h₁ h₂ h₃ h₄
      extracted plain =
    let arrived =
      extracted ∙ extract-inject context trace_id span_id headers traced spanned h₁ h₂ h₃ h₄ in
    let x =
      start_span-Continues env args c trace_id w (ap (λ f. f.current_span) arrived)
        (ap (λ f. f.parent_trace_id) arrived) valid plain in
    (
      x.0,
      record {
        same_trace = ap some x.1.trace_id ∙ sym traced;
        remote_parent = x.1.parent_id ∙ ap (λ f. f.parent_span_id) arrived ∙ sym spanned;
        no_local_parent = x.1.parent;
      },
    )
