-- ===== src/Recorder.antt =====
-- oteltrace/tracer.py: what `Tracer` does with the contexts and finished traces, its configuration,
-- and `Span.finish` of oteltrace/span.py, which closes the span in its context and has the tracer
-- record it. The decorators and log lines are left out.
pub mod Invariant
pub mod Complete
pub mod Again
pub mod Begun
use opentelemetry_auto_instr.Common.{
  ℕ, suc, ◌+◌, ◌==◌, ℤ, pos, sub_ℕ, nonzero, Bool, true, false, not, ◌&&◌, ◌||◌, Option, none, some,
  String, List, [], ◌∷◌, ◌++◌, Dict, insert, member, Result, ok, raised, attribute_error, Exec,
  ◌>>=◌, ◌>>◌, pure, raise, gets, modify, is_some, or_default, str_eq, if◌then◌else◌, head?,
}
use opentelemetry_auto_instr.Value.{
  Number, whole, fraction, Value, text, number, sample_rate_metric_key, auto_keep, auto_reject,
}
use opentelemetry_auto_instr.Writer.{AgentWriter, agent_writer, write}
use opentelemetry_auto_instr.Sampler.{
  Sampler, all_traces, rated, by_service, otel, OtelSampler, by_service_sampler, rate_one,
}
use opentelemetry_auto_instr.World.{Span, Context, Tracer, World, Env, on_span, on_context, update}
use opentelemetry_auto_instr.Span.{SpanArgs, new_span, or_time, set_metric, set_tag, set_tags}
use opentelemetry_auto_instr.Context.{empty_context, add_span, close_span, get, Taken}
use opentelemetry_auto_instr.Sampling.{rate_value, sample, service_sample}
use opentelemetry_auto_instr.Tracer.{alloc_context, StartArgs, of_context, start_span, on_tracer}

-- `Tracer.get_call_context`, from the provider of one thread or task, which makes a context if none
-- is active.
pub call_context : Option ℕ → Exec World ℕ
unfolding alloc_context
call_context (some c) = pure c
call_context none = do
  c ← alloc_context empty_context
  modify (on_tracer (λ t. record t { active_context = some c }))
  pure c

pub get_call_context : Exec World ℕ
unfolding call_context
get_call_context w = call_context w.tracer.active_context w

-- `context_provider.activate`
pub activate : Option ℕ → World → World
activate c = on_tracer (λ t. record t { active_context = c })

-- `Tracer.trace`
pub trace : Env → StartArgs → Exec World ℕ
unfolding get_call_context
trace env args = do c ← get_call_context; start_span env args (of_context c)

-- `Tracer.current_span`, and `Tracer.current_root_span`
pub current_span : Exec World (Option ℕ)
unfolding get_call_context
current_span = do c ← get_call_context; gets (λ w. (w.contexts c).current_span)

pub current_root_span : Exec World (Option ℕ)
unfolding get_call_context
current_root_span = do c ← get_call_context; gets (λ w. head? (w.contexts c).trace)

-- The enabled tracer with no writer has no such attribute, which raises.
abbrev pub hand_to : Env → List ℕ → Option (AgentWriter ℕ) → Exec World Unit
hand_to env spans none w = (raised attribute_error, w)
hand_to env spans (some writer) w =
    (ok tt, on_tracer (λ t. record t { writer = some (write env.pid env.slot spans writer) }) w)

-- `Tracer.write`
pub write_trace : Env → List ℕ → Exec World Unit
write_trace env [] w = (ok tt, w)
write_trace env (r ∷ rs) w =
    if w.tracer.enabled then hand_to env (r ∷ rs) w.tracer.writer w else (ok tt, w)

abbrev write_taken : Env → Taken → Exec World Unit
write_taken env none = pure tt
write_taken env (some (taken, sampled)) = if sampled then write_trace env taken else pure tt

-- `Tracer.record`
pub record_trace : Env → ℕ → Exec World Unit
record_trace env c = do taken ← get c; write_taken env taken

-- The duration that `finish` sets: 0 for a span whose start is not set.
abbrev pub elapsed : Span → ℕ → ℤ
elapsed span ft = if span.start == 0 then pos 0 else sub_ℕ ft span.start

pub mark_finished : Env → Option ℕ → Span → Span
mark_finished env finish_time span = record span {
  finished = true;
  duration = elim span.duration [
    | none ↦ some (elapsed span (or_time finish_time env.now))
    | some d ↦ some d
  ];
}

pub close_and_record : Env → ℕ → Option ℕ → World → World
close_and_record env r none w = w
close_and_record env r (some c) w =
    let w' = close_span c r w in if (w.spans r).has_tracer then (record_trace env c w').1 else w'

-- `Span.finish`: what `record` raises is caught and logged, and what it wrote before stays.
pub finish : Env → Option ℕ → ℕ → World → World
unfolding mark_finished close_and_record on_span
finish env finish_time r w =
    if (w.spans r).finished
    then w
    else close_and_record env r (w.spans r).context (on_span r (mark_finished env finish_time) w)

-- The arguments of `configure` that reach what is modelled here; filters and an API stand for
-- whether they are given.
pub record ConfigureArgs : Type 0 where
  pub enabled : Option Bool
  pub sampler : Option Sampler
  pub priority_sampling : Option Bool
  pub has_filters : Bool
  pub has_api : Bool

abbrev pub is_false : Option Bool → Bool
is_false none = false
is_false (some b) = not b

alloc_priority_sampler : World → World
alloc_priority_sampler w = record w {
  service_samplers = update w.service_samplers w.next_sampler (by_service_sampler rate_one);
  next_sampler = suc w.next_sampler;
  tracer = record w.tracer { priority_sampler = some w.next_sampler };
}

pub set_priority_sampling : Option Bool → World → World
unfolding alloc_priority_sampler
set_priority_sampling choice w =
    if is_false choice
    then on_tracer (λ t. record t { priority_sampler = none }) w
    else if is_some w.tracer.priority_sampler
    then w
    else alloc_priority_sampler w

-- An OpenTelemetrySampler falls back to the tracer's priority sampler.
pub link_sampler : Option ℕ → Sampler → Sampler
link_sampler s (otel sampler) = otel (record sampler { priority_sampler = s })
link_sampler s all_traces = all_traces
link_sampler s (rated sampler) = rated sampler
link_sampler s (by_service t) = by_service t

-- `Tracer.configure`
pub configure : Env → ConfigureArgs → World → World
unfolding set_priority_sampling link_sampler
configure env args w =
    let w₁ = on_tracer (λ t. record t { enabled = or_default args.enabled t.enabled }) w in
    let w₂ = set_priority_sampling args.priority_sampling w₁ in
    let w₃ =
      on_tracer
        (λ t. record t {
          sampler = link_sampler t.priority_sampler (or_default args.sampler t.sampler);
        })
        w₂ in
    if args.has_filters || is_some args.priority_sampling || args.has_api
    then on_tracer (λ t. record t { writer = some (agent_writer env.pid) }) w₃
    else w₃
