-- ===== src/Sampling/Keeps.antt =====
-- oteltrace/sampler.py: which parts of spans, contexts and the tracer a sampler leaves alone.
use opentelemetry_auto_instr.Common.{
  ℕ, ℤ, pos, [], eq_ℤ, refl, ap, Bool, true, false, Option, none, some, String, Exec, Result, ok,
  raised, Bool-cases, inl, inr,
}
use opentelemetry_auto_instr.Value.{Value, auto_keep}
use opentelemetry_auto_instr.RateLimiter.{is_allowed}
use opentelemetry_auto_instr.Sampler.{
  RateSampler, SamplingRule, rule_sample, sampler_for, service_key, first_match, OtelSampler,
  Sampler, all_traces, rated, by_service, otel,
}
use opentelemetry_auto_instr.World.{World, Env, Span, on_span}
use opentelemetry_auto_instr.World.Keeps.{
  KeepsBy, KeptBy, Kept, frame, identity, active_of, Others, Keeps-refl, Keeps-trans, Keeps-map,
  on_span-Keeps, on_context-Keeps, on_tracer-Keeps, Kept-pure, Kept-bind,
}
use opentelemetry_auto_instr.Span.{set_metric}
use opentelemetry_auto_instr.Span.Keeps.{unmeasured-set_metric}
use opentelemetry_auto_instr.Sampling.{
  env_of, decide_by, with_env, service_sample, set_context_priority, set_priority, conclude,
  limit_sample, apply_rule, otel_sample_by, sample,
}

-- A span but for its metrics and decision, and the others but for the tracer's sampler, which holds its
-- rate limiter.
abbrev pub undecided : Span → Span
undecided s = record s { metrics = []; sampled = true }

abbrev pub unlimited : Others → Others
unlimited o = record o { tracer = record o.tracer { sampler = all_traces } }

abbrev pub Sampled : World → World → Type 0
Sampled = KeepsBy undecided frame unlimited

abbrev pub SampledBy : {A : Type 0} → Exec World A → Type 0
SampledBy m = KeptBy undecided frame unlimited m

-- What a sampler keeps includes what tags and metrics keep.
pub Kept-SampledBy : {A : Type 0} {m : Exec World A} → SampledBy m → Kept m
Kept-SampledBy k = record { at = λ w. Keeps-map identity (λ c. c) active_of (k.at w) }

pub metric-Keeps :
    (r : ℕ) (key : String) (value : Value) (w : World)
    → Sampled w (on_span r (set_metric key value) w)
metric-Keeps r key value w =
    on_span-Keeps r _ w (ap undecided (unmeasured-set_metric key value (w.spans r)))

decide_by-Keeps : (r : ℕ) (s : Option RateSampler) (w : World) → Sampled w (decide_by r s w).1
decide_by-Keeps r none w = Keeps-refl w
decide_by-Keeps r (some sampler) w = metric-Keeps r _ _ w

with_env-Keeps :
    (s r : ℕ) (env : Result (Option String)) (w : World) → Sampled w (with_env s r env w).1
with_env-Keeps s r (raised e) w = Keeps-refl w
with_env-Keeps s r (ok env) w =
    decide_by-Keeps r (sampler_for (service_key (w.spans r).service env) (w.service_samplers s)) w

pub service_sample-Kept : (s r : ℕ) → SampledBy (service_sample s r)
unfolding service_sample
service_sample-Kept s r = record { at = λ w. with_env-Keeps s r (env_of w.tracer.tags) w }

set_context_priority-Keeps :
    (c : Option ℕ) (priority : ℤ) (w : World) → Sampled w (set_context_priority c priority w)
set_context_priority-Keeps none priority w = Keeps-refl w
set_context_priority-Keeps (some c) priority w = on_context-Keeps c _ w refl

pub set_priority-Keeps : (r : ℕ) (priority : ℤ) (w : World) → Sampled w (set_priority r priority w)
unfolding set_priority
set_priority-Keeps r priority w =
    Keeps-trans (set_context_priority-Keeps (w.spans r).context priority w) (
      on_span-Keeps r (λ span. record span { sampled = eq_ℤ priority auto_keep })
        (set_context_priority (w.spans r).context priority w) refl)

conclude-Keeps : (r : ℕ) (keeps : Bool) (w : World) → Sampled w (conclude r keeps w).1
unfolding conclude
conclude-Keeps r keeps w = set_priority-Keeps r _ w

limit_sample-Keeps :
    (env : Env) (sampler : OtelSampler) (r : ℕ) (w : World)
    → Sampled w (limit_sample env sampler r w).1
unfolding limit_sample
limit_sample-Keeps env sampler r w =
    let (allowed, limiter) =
      is_allowed (record { refill = env.refill; count = env.count }) sampler.limiter in
    let kept =
      Keeps-trans (set_priority-Keeps r (pos 1) w)
        (on_tracer-Keeps _ (set_priority r (pos 1) w) refl) in
    elim (Bool-cases allowed) [
      | inl passed ↦
          rw passed
            (Keeps-trans kept (Keeps-trans (metric-Keeps r _ _ _) (conclude-Keeps r true _)))
      | inr refused ↦ rw refused (Keeps-trans kept (conclude-Keeps r false _))
    ]

apply_rule-Keeps :
    (env : Env) (sampler : OtelSampler) (rule : SamplingRule) (r : ℕ) (w : World)
    → Sampled w (apply_rule env sampler rule r w).1
unfolding apply_rule
apply_rule-Keeps env sampler rule r w = elim (Bool-cases (rule_sample rule (w.spans r).trace_id)) [
  | inl hit ↦ rw hit (Keeps-trans (metric-Keeps r _ _ w) (limit_sample-Keeps env sampler r _))
  | inr miss ↦ rw miss (Keeps-trans (metric-Keeps r _ _ w) (conclude-Keeps r false _))
]

otel_sample_by-Keeps :
    (env : Env) (sampler : OtelSampler) (r : ℕ) (rule : Option SamplingRule) (s : Option ℕ)
    (w : World)
    → Sampled w (otel_sample_by env sampler r rule s w).1
otel_sample_by-Keeps env sampler r (some rule) s w = apply_rule-Keeps env sampler rule r w
otel_sample_by-Keeps env sampler r none (some s) w =
    (Kept-bind (service_sample s r) _ (service_sample-Kept s r)
        (λ keeps. record { at = conclude-Keeps r keeps })).at
      w
otel_sample_by-Keeps env sampler r none none w =
    apply_rule-Keeps env sampler sampler.default_sampler r w

-- Whatever the sampler, sampling a span keeps all of every span but its metrics and decision, all of
-- every context but its priority, the settings, the samplers by service, and all of the tracer but its
-- sampler, also where it raises.
pub sample-Kept : (env : Env) (sampler : Sampler) (r : ℕ) → SampledBy (sample env sampler r)
unfolding sample
sample-Kept env all_traces r = Kept-pure true
sample-Kept env (rated sampler) r = record { at = Keeps-refl }
sample-Kept env (by_service s) r = service_sample-Kept s r
sample-Kept env (otel sampler) r = record {
  at = λ w.
      otel_sample_by-Keeps env sampler r
        (first_match (w.spans r).service (w.spans r).name sampler.rules) sampler.priority_sampler w;
}
