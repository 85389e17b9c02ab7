-- ===== src/Examples/Ready.antt =====
-- A tracer with an active, empty context, which starts every span that it is asked for.
use opentelemetry_auto_instr.Common.{◌≡◌, refl, ◌∙◌, ap, ok, Option, some, pos, arith}
use opentelemetry_auto_instr.World.{World}
use opentelemetry_auto_instr.Sampler.{RateSampler, rated, set_sample_rate}
use opentelemetry_auto_instr.Context.Consistent.{Consistent}
use opentelemetry_auto_instr.Tracer.{StartArgs}
use opentelemetry_auto_instr.Tracer.Roots.{start_span-Begins}
use opentelemetry_auto_instr.Recorder.{trace}
use opentelemetry_auto_instr.Recorder.Begun.{trace-start_span, trace-Consistent}
use opentelemetry_auto_instr.Examples.{idle, readings}

abbrev half : RateSampler
half = set_sample_rate (record { num = pos 1; den = 2 })

abbrev pub ready : World
ready = record idle {
  next_context = 1;
  tracer = record idle.tracer { sampler = rated half; active_context = some 0 };
}

ready-Consistent : Consistent ready
ready-Consistent = record {
  counted = λ c. refl;
  owned = λ c. tt;
  listed = λ r c open_r own. absurd (let e : Option.none ≡ some c = own in ground (arith, e));
  distinct = λ c. tt;
  fresh_spans = λ r le. refl;
  fresh_contexts = λ r c own. absurd (let e : Option.none ≡ some c = own in ground (arith, e));
  unused_contexts = λ c le. refl;
  active_known = λ c e. let e' : some 0 ≡ some c = e in ground (arith, e');
}

pub ready_traces : (args : StartArgs) → (trace readings args ready).0 ≡ ok 0
ready_traces args =
    ap (λ x. x.0) (trace-start_span readings args 0 ready refl)
    ∙ (start_span-Begins readings args half 0 ready refl refl refl refl tt).0

pub ready-Consistent_trace : (args : StartArgs) → Consistent (trace readings args ready).1
ready-Consistent_trace args =
    trace-Consistent readings args 0 ready refl (omega arith) ready-Consistent

pub ready_context : (args : StartArgs) → ((trace readings args ready).1.spans 0).context ≡ some 0
ready_context args =
    ap (λ x. (x.1.spans 0).context) (trace-start_span readings args 0 ready refl)
    ∙ (start_span-Begins readings args half 0 ready refl refl refl refl tt).1.context
