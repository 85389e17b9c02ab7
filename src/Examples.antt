-- ===== src/Examples.antt =====
-- The worlds that the examples run in: a tracer with no span, with one open span, and with one that
-- is finished but not yet written.
mod Tracing
mod Spans
pub mod Ready
use opentelemetry_auto_instr.Common.{
  ℕ, ◌≡◌, refl, ◌==◌, ==_true, ◌+◌, ◌≤◌, ◌<◌, pos, Bool, true, false, Option, none, some, [], ◌∷◌,
  arith, if◌then◌else◌, All, length, keep, Bool-cases, inl, inr,
}
use opentelemetry_auto_instr.Common.Members.{occurs, Distinct}
use opentelemetry_auto_instr.Sampler.{all_traces, by_service_sampler, rate_one}
use opentelemetry_auto_instr.Writer.{AgentWriter, agent_writer}
use opentelemetry_auto_instr.World.{Span, Context, Settings, Tracer, World, Env}
use opentelemetry_auto_instr.Context.{empty_context, is_finished}
use opentelemetry_auto_instr.Context.Consistent.{Consistent}

abbrev pub readings : Env
readings = record {
  now = 9000;
  refill = 9000;
  count = 9000;
  fresh_trace_id = pos 77;
  fresh_span_id = pos 5;
  pid = 42;
  slot = 3;
}

abbrev pub blank : Span
blank = record {
  name = "";
  service = none;
  resource = "";
  span_type = none;
  meta = [];
  error = 0;
  metrics = [];
  start = 1000;
  duration = none;
  trace_id = pos 66;
  span_id = pos 4;
  parent_id = none;
  has_tracer = true;
  sampled = true;
  context = none;
  parent = none;
  finished = false;
}

abbrev tracer : Tracer
tracer = record {
  enabled = true;
  sampler = all_traces;
  priority_sampler = none;
  writer = some (agent_writer 42);
  has_runtime_worker = false;
  tags = [];
  services = [];
  pid = 42;
  active_context = none;
}

abbrev settings : Settings
settings = record {
  partial_flush_enabled = false;
  partial_flush_min_spans = 500;
  report_hostname = false;
  hostname = "";
}

abbrev pub idle : World
idle = record {
  spans = λ r. blank;
  next_span = 0;
  contexts = λ c. empty_context;
  next_context = 0;
  service_samplers = λ s. by_service_sampler rate_one;
  next_sampler = 0;
  settings = settings;
  tracer = tracer;
}

idle-Consistent : Consistent idle
idle-Consistent = record {
  counted = λ c. refl;
  owned = λ c. tt;
  listed = λ r c open_r own. absurd (let e : Option.none ≡ some c = own in ground (arith, e));
  distinct = λ c. tt;
  fresh_spans = λ r le. refl;
  fresh_contexts = λ r c own. absurd (let e : Option.none ≡ some c = own in ground (arith, e));
  unused_contexts = λ c le. refl;
  active_known = λ c e. absurd (let e' : Option.none ≡ some c = e in ground (arith, e'));
}

-- One context with one span, and the count of its finished spans.
abbrev solo : Bool → ℕ → World
solo finished count = record idle {
  spans = λ r.
      if r == 0
      then record blank { name = "solo"; context = some 0; finished = finished }
      else blank;
  next_span = 1;
  contexts = λ c.
      if c == 0
      then record empty_context { trace = 0 ∷ []; finished_spans = count; current_span = some 0 }
      else empty_context;
  next_context = 1;
}

solo-Consistent : (finished : Bool) → Consistent (solo finished (if finished then 1 else 0))
solo-Consistent finished = record {
  counted = λ c. ground arith;
  owned = λ c. elim (Bool-cases (c == 0)) [
    | inl same ↦ simp same ((ground (arith, ==_true c 0 same), tt))
    | inr other ↦ simp other tt
  ];
  listed = λ r c open_r own. ground arith;
  distinct = λ c. elim (Bool-cases (c == 0)) [
    | inl same ↦ simp same (refl, tt)
    | inr other ↦ simp other tt
  ];
  fresh_spans = λ r le. ground arith;
  fresh_contexts = λ r c own. ground arith;
  unused_contexts = λ c le. ground arith;
  active_known = λ c e. absurd (let e' : Option.none ≡ some c = e in ground (arith, e'));
}
