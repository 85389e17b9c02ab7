-- ===== src/Sampling.antt =====
-- oteltrace/sampler.py: `sample` of each sampler, which writes its decision on the span and, for
-- `OpenTelemetrySampler`, on the span's context.
pub mod Decisions
pub mod Keeps
use opentelemetry_auto_instr.Common.{
  ℕ, ℤ, pos, eq_ℤ, nonzero, not, Bool, true, false, Option, none, some, String, List, [], ◌∷◌, Dict,
  lookup, Result, ok, raised, key_error, type_error, Exec, ◌>>=◌, ◌>>◌, pure, modify, if◌then◌else◌,
}
use opentelemetry_auto_instr.Value.{
  Number, whole, fraction, nan, infinite, Value, none_value, text, number, object,
  sampling_agent_decision, sampling_rule_decision, sampling_limit_decision, env_key, auto_keep,
  auto_reject,
}
use opentelemetry_auto_instr.RateLimiter.{RateLimiter, Ratio, Readings, is_allowed, effective_rate}
use opentelemetry_auto_instr.Sampler.{
  SampleRate, RateSampler, rate_sample, RateByServiceSampler, service_key, sampler_for,
  SamplingRule, first_match, rule_sample, OtelSampler, Sampler, all_traces, rated, by_service, otel,
}
use opentelemetry_auto_instr.World.{Span, Context, Tracer, World, Env, on_span, on_context}
use opentelemetry_auto_instr.Span.{set_metric}

-- A rate as the number that `set_metric` is handed.
abbrev pub rate_value : SampleRate → Value
rate_value rate = number (fraction rate.num rate.den) ""

abbrev is_zero : Number → Bool
is_zero (whole n) = not (nonzero n)
is_zero (fraction n d) = not (nonzero n)
is_zero nan = false
is_zero infinite = false

-- The `env` of the tracer's tags: a missing one and zero count as empty, and `'env:' + env` raises
-- for what is no text. An object of another type counts as true.
unfoldable pub env_of : Dict Value → Result (Option String)
env_of tags = elim (lookup env_key tags) [
  | none ↦ ok none
  | some none_value ↦ ok none
  | some (text s f) ↦ ok (some s)
  | some (number n s) ↦ if is_zero n then ok none else raised type_error
  | some (object f s) ↦ raised type_error
]

abbrev decide_by : ℕ → Option RateSampler → Exec World Bool
decide_by r none w = (raised key_error, w)
decide_by r (some sampler) w = (
  ok (rate_sample sampler (w.spans r).trace_id),
  on_span r (set_metric sampling_agent_decision (rate_value sampler.sample_rate)) w,
)

abbrev with_env : ℕ → ℕ → Result (Option String) → Exec World Bool
with_env s r (raised e) w = (raised e, w)
with_env s r (ok env) w =
    decide_by r (sampler_for (service_key (w.spans r).service env) (w.service_samplers s)) w

-- `RateByServiceSampler.sample`, for the sampler with the reference s
unfoldable pub service_sample : ℕ → ℕ → Exec World Bool
unfolding on_span
service_sample s r w = with_env s r (env_of w.tracer.tags) w

abbrev set_context_priority : Option ℕ → ℤ → World → World
set_context_priority none priority w = w
set_context_priority (some c) priority w =
    on_context c (λ context. record context { sampling_priority = some priority }) w

-- `OpenTelemetrySampler._set_priority`
unfoldable pub set_priority : ℕ → ℤ → World → World
unfolding on_span on_context
set_priority r priority w =
    on_span r (λ span. record span { sampled = eq_ℤ priority auto_keep })
      (set_context_priority (w.spans r).context priority w)

-- The end of a branch of `sample`: the priority is set and the decision returned.
unfoldable pub conclude : ℕ → Bool → World → Bool × World
unfolding set_priority
conclude r keeps w = (keeps, set_priority r (if keeps then auto_keep else auto_reject) w)

abbrev on_limiter : OtelSampler → RateLimiter → World → World
on_limiter sampler limiter w = record w {
  tracer = record w.tracer { sampler = otel (record sampler { limiter = limiter }) };
}

-- The rate limit, for a trace that its rule keeps.
unfoldable pub limit_sample : Env → OtelSampler → ℕ → World → Bool × World
unfolding on_span
limit_sample env sampler r w =
    let (allowed, limiter) =
      is_allowed (record { refill = env.refill; count = env.count }) sampler.limiter in
    let w' = on_limiter sampler limiter (set_priority r auto_keep w) in
    let rate = effective_rate limiter in
    let w'' =
      on_span r (set_metric sampling_limit_decision (number (fraction (pos rate.num) rate.den) ""))
        w' in
    if allowed then conclude r true w'' else conclude r false w'

-- The decision of a matching rule, or of the default one.
unfoldable pub apply_rule : Env → OtelSampler → SamplingRule → ℕ → World → Bool × World
unfolding on_span
apply_rule env sampler rule r w =
    let w' = on_span r (set_metric sampling_rule_decision (rate_value rule.sample_rate)) w in
    if rule_sample rule (w.spans r).trace_id
    then limit_sample env sampler r w'
    else conclude r false w'

abbrev conclude_with : ℕ → Exec World Bool → Exec World Bool
conclude_with r m = do keeps ← m; λ w. let (decision, w') = conclude r keeps w in (ok decision, w')

abbrev otel_sample_by : Env → OtelSampler → ℕ → Option SamplingRule → Option ℕ → Exec World Bool
otel_sample_by env sampler r (some rule) fallback w =
    let (decision, w') = apply_rule env sampler rule r w in (ok decision, w')
otel_sample_by env sampler r none (some s) w = conclude_with r (service_sample s r) w
otel_sample_by env sampler r none none w =
    let (decision, w') = apply_rule env sampler sampler.default_sampler r w in (ok decision, w')

-- `OpenTelemetrySampler.sample`
unfoldable pub otel_sample : Env → OtelSampler → ℕ → Exec World Bool
otel_sample env sampler r w =
    otel_sample_by env sampler r (first_match (w.spans r).service (w.spans r).name sampler.rules)
      sampler.priority_sampler w

-- `self.sampler.sample(span)`
unfoldable pub sample : Env → Sampler → ℕ → Exec World Bool
unfolding otel_sample
sample env all_traces r w = (ok true, w)
sample env (rated sampler) r w = (ok (rate_sample sampler (w.spans r).trace_id), w)
sample env (by_service s) r w = service_sample s r w
sample env (otel sampler) r w = otel_sample env sampler r w
