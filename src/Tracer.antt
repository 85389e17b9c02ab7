-- ===== src/Tracer.antt =====
-- oteltrace/tracer.py: `Tracer.start_span`. Log lines are left out, and of the runtime worker, which
-- only logs, whether it is there.
pub mod Parents
pub mod Remote
pub mod Roots
pub mod Ready
pub mod Keeps
use opentelemetry_auto_instr.Common.{
  ℕ, suc, ◌+◌, ◌==◌, ℤ, pos, sub_ℕ, nonzero, Bool, true, false, not, ◌&&◌, ◌||◌, Option, none, some,
  String, List, [], ◌∷◌, ◌++◌, Dict, insert, member, Result, ok, raised, attribute_error, Exec,
  ◌>>=◌, ◌>>◌, pure, raise, gets, modify, is_some, or_default, str_eq, if◌then◌else◌, head?,
}
use opentelemetry_auto_instr.Value.{
  Number, whole, fraction, Value, text, number, sample_rate_metric_key, auto_keep, auto_reject,
}
use opentelemetry_auto_instr.Writer.{AgentWriter, agent_writer, write}
use opentelemetry_auto_instr.Sampler.{
  Sampler, all_traces, rated, by_service, otel, OtelSampler, by_service_sampler, rate_one,
}
use opentelemetry_auto_instr.World.{Span, Context, Tracer, World, Env, on_span, on_context, update}
use opentelemetry_auto_instr.Span.{SpanArgs, new_span, or_time, set_metric, set_tag, set_tags}
use opentelemetry_auto_instr.Propagation.{show}
use opentelemetry_auto_instr.Context.{empty_context, add_span, close_span, get, Taken}
use opentelemetry_auto_instr.Sampling.{rate_value, sample, service_sample}

-- A heap cell for a new context, and for a new span.
unfoldable pub alloc_context : Context → Exec World ℕ
alloc_context context w = (
  ok w.next_context,
  record w {
    contexts = update w.contexts w.next_context context;
    next_context = suc w.next_context;
  },
)

pub alloc_span : Span → Exec World ℕ
alloc_span span w = (
  ok w.next_span,
  record w { spans = update w.spans w.next_span span; next_span = suc w.next_span },
)

-- The arguments of `start_span`: `child_of` is nothing, a span or a context.
pub data ChildOf : Type 0 where
  of_nothing : ChildOf
  of_span : ℕ → ChildOf
  of_context : ℕ → ChildOf

pub record StartArgs : Type 0 where
  pub name : String
  pub service : Option String
  pub resource : Option String
  pub span_type : Option String

-- The context and the parent of the new span. A span with no context has no `trace_id` to read.
pub resolve : ChildOf → Exec World (Option ℕ × Option ℕ)
unfolding alloc_context
resolve of_nothing w = (do c ← alloc_context empty_context; pure (some c, none)) w
resolve (of_span p) w = (ok ((w.spans p).context, some p), w)
resolve (of_context c) w = (ok (some c, (w.contexts c).current_span), w)

-- `service or parent.service`
abbrev pub inherit : Option String → Option String → Option String
inherit none parent_service = parent_service
inherit (some s) parent_service = if str_eq s "" then parent_service else some s

abbrev pub truthy_id : Option ℤ → Bool
truthy_id none = false
truthy_id (some n) = nonzero n

-- The trace that the new span joins, if there is one, and its parent's id.
pub lineage : Option ℕ → ℕ → World → Option ℤ × Option ℤ
lineage (some p) c w = (some (w.spans p).trace_id, some (w.spans p).span_id)
lineage none c w = ((w.contexts c).parent_trace_id, (w.contexts c).parent_span_id)

abbrev args_of : StartArgs → Option String → Option ℤ → Option ℤ → SpanArgs
args_of args service trace_id parent_id = record {
  service = service;
  resource = args.resource;
  span_type = args.span_type;
  trace_id = trace_id;
  span_id = none;
  parent_id = parent_id;
  start = none;
  context = none;
}

-- The new span of a trace that is under way: it inherits from its local parent, if it has one.
pub joining_span : Env → StartArgs → Option ℕ → Option ℤ × Option ℤ → World → Span
joining_span env args none (trace_id, parent_id) w =
    new_span env true args.name (args_of args args.service trace_id parent_id)
joining_span env args (some p) (trace_id, parent_id) w =
    record (new_span env true args.name
      (args_of args (inherit args.service (w.spans p).service) trace_id parent_id)) {
        sampled = (w.spans p).sampled;
        parent = some p;
      }

pub root_span : Env → StartArgs → Span
root_span env args = new_span env true args.name (args_of args args.service none none)

abbrev context_priority : ℕ → ℤ → World → World
context_priority c priority =
    on_context c (λ context. record context { sampling_priority = some priority })

abbrev auto_priority : Bool → ℤ
auto_priority keeps = if keeps then auto_keep else auto_reject

-- `if self.priority_sampler`: what it decides of a span that the sampler keeps becomes the context's
-- priority.
pub prioritize : Option ℕ → ℕ → ℕ → Exec World Unit
prioritize none c r = pure tt
prioritize (some s) c r = do
  keeps ← service_sample s r
  modify (context_priority c (auto_priority keeps))

pub reject : Option ℕ → ℕ → World → World
reject none c w = w
reject (some s) c w = context_priority c auto_reject w

-- What `start_span` does with the sampler's decision, by the class of the sampler.
pub apply_decision : Sampler → Bool → ℕ → ℕ → Exec World Unit
unfolding prioritize reject on_span on_context
apply_decision (otel sampler) keeps c r w = (ok tt, context_priority c (auto_priority keeps) w)
apply_decision (rated sampler) keeps c r w =
    if keeps
    then prioritize w.tracer.priority_sampler c r
        (on_span r (set_metric sample_rate_metric_key (rate_value sampler.sample_rate)) w)
    else (ok tt, reject w.tracer.priority_sampler c w)
apply_decision all_traces keeps c r w =
    if keeps
    then prioritize w.tracer.priority_sampler c r w
    else (ok tt, reject w.tracer.priority_sampler c w)
apply_decision (by_service s) keeps c r w =
    if keeps
    then prioritize w.tracer.priority_sampler c r w
    else (ok tt, reject w.tracer.priority_sampler c w)

-- The sampling of the root span of a new trace.
pub sample_root : Env → ℕ → ℕ → Exec World Unit
unfolding on_span
sample_root env c r w =
    (do
      keeps ← sample env w.tracer.sampler r
      modify (on_span r (λ span. record span { sampled = keeps }))
      (λ w'. apply_decision w'.tracer.sampler keeps c r w')
      if w.tracer.has_runtime_worker then set_tag r "language" (text "python" none) else pure tt)
      w

-- The new span, before its common tags: of the trace that it joins, or the sampled root of a new one.
pub create : Env → StartArgs → Option ℕ → ℕ → Exec World ℕ
unfolding alloc_span lineage joining_span root_span
create env args parent c w =
    let (trace_id, parent_id) = lineage parent c w in
    if truthy_id trace_id
    then alloc_span (joining_span env args parent (trace_id, parent_id) w) w
    else (do r ← alloc_span (root_span env args); sample_root env c r; pure r) w

-- `_check_new_process`
pub check_new_process : ℕ → Tracer → Tracer
check_new_process pid tracer =
    if tracer.has_runtime_worker && not (tracer.pid == pid)
    then record tracer { pid = pid; services = [] }
    else tracer

pub note_service : Option String → Tracer → Tracer
note_service none tracer = tracer
note_service (some s) tracer =
    if str_eq s "" || member s tracer.services
    then tracer
    else record tracer { services = s ∷ tracer.services }

-- The service that `start_span` notes: for a joining span, the one that it may have inherited.
pub noted : StartArgs → Option ℕ → ℕ → World → Option String
noted args none c w = args.service
noted args (some p) c w =
    if nonzero (w.spans p).trace_id then inherit args.service (w.spans p).service else args.service

abbrev pub on_tracer : (Tracer → Tracer) → World → World
on_tracer f w = record w { tracer = f w.tracer }

abbrev pid_tag : Env → Value
pid_tag env = number (whole (pos env.pid)) (show (pos env.pid))

-- The process id, on a span with no local parent.
pub tag_pid : Env → ℕ → Exec World Unit
tag_pid env r w =
    (if is_some (w.spans r).parent then pure tt else set_tag r "system.pid" (pid_tag env)) w

-- The end of `start_span`: the span joins its context, and its service is noted.
abbrev register : Env → Option String → ℕ → ℕ → Exec World ℕ
register env service c r = do
  modify (add_span c r)
  modify (on_tracer (λ t. note_service service (check_new_process env.pid t)))
  pure r

-- What `start_span` does with every new span.
abbrev complete : Env → Option String → Dict Value → ℕ → ℕ → Exec World ℕ
complete env service tags c r = do set_tags r tags; tag_pid env r; register env service c r

-- `start_span`, once the context is known
pub start_in : Env → StartArgs → Option ℕ → ℕ → Exec World ℕ
start_in env args parent c w =
    (do r ← create env args parent c; complete env (noted args parent c w) w.tracer.tags c r) w

-- A parent with no context: `start_span` raises when it adds the span to it, and nothing of the new
-- span is reachable.
start_at : Env → StartArgs → Option ℕ × Option ℕ → Exec World ℕ
start_at env args (none, parent) = raise attribute_error
start_at env args (some c, parent) = start_in env args parent c

-- `Tracer.start_span`
pub start_span : Env → StartArgs → ChildOf → Exec World ℕ
unfolding start_at
start_span env args child_of = do where_to ← resolve child_of; start_at env args where_to
