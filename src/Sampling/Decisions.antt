-- ===== src/Sampling/Decisions.antt =====
-- oteltrace/sampler.py: what `OpenTelemetrySampler.sample` decides, and how the span and its context
-- record the decision.
use mathlib.Core.Path.{subst}
use opentelemetry_auto_instr.Common.{
  ℕ, eq_ℤ, ◌≡◌, refl, sym, ◌∙◌, ap, ==_self, Bool, true, false, ◌&&◌, Option, none, some,
  or_default, Result, ok, if◌then◌else◌, Bool-cases, inl, inr,
}
use opentelemetry_auto_instr.Value.{auto_keep, auto_reject}
use opentelemetry_auto_instr.RateLimiter.{is_allowed}
use opentelemetry_auto_instr.Sampler.{SamplingRule, first_match, rule_sample, OtelSampler, otel}
use opentelemetry_auto_instr.World.{Span, World, Env, on_span, on_context}
use opentelemetry_auto_instr.Sampling.{
  set_context_priority, set_priority, conclude, on_limiter, limit_sample, apply_rule,
  otel_sample_by, otel_sample, sample,
}
use opentelemetry_auto_instr.Sampling.Keeps.{metric-Keeps, set_priority-Keeps}

abbrev pub Prioritized : Option ℕ → Bool → World → Type 0
Prioritized none keeps w = Unit
Prioritized (some c) keeps w =
    ((w.contexts c).sampling_priority ≡ some (if keeps then auto_keep else auto_reject))

-- The decision on the span r, with the context o, as it was returned and as it was recorded.
pub record Decided (r : ℕ) (o : Option ℕ) (keeps : Bool) (x : Bool × World) : Type 0 where
  pub returned : x.0 ≡ keeps
  pub recorded : (x.1.spans r).sampled ≡ keeps
  pub prioritized : Prioritized o keeps x.1

Prioritized-own :
    (r : ℕ) (o : Option ℕ) (keeps : Bool) (f : Span → Span) (w : World)
    → Prioritized o keeps
        (on_span r f (set_context_priority o (if keeps then auto_keep else auto_reject) w))
unfolding on_span on_context
Prioritized-own r none keeps f w = tt
Prioritized-own r (some c) keeps f w = simp ==_self refl

conclude-Decided :
    (r : ℕ) (o : Option ℕ) (keeps : Bool) (w : World)
    → (w.spans r).context ≡ o
    → Decided r o keeps (conclude r keeps w)
unfolding conclude set_priority on_span on_context
conclude-Decided r o keeps w e = record {
  returned = refl;
  recorded = simp ==_self (as_kept keeps);
  prioritized =
      subst (λ d. Prioritized d keeps (set_priority r (if keeps then auto_keep else auto_reject) w))
        e
        (Prioritized-own r (w.spans r).context keeps
          (λ span. record span {
            sampled = eq_ℤ (if keeps then auto_keep else auto_reject) auto_keep;
          })
          w);
}
  where
    as_kept : (b : Bool) → eq_ℤ (if b then auto_keep else auto_reject) auto_keep ≡ b
    as_kept true = refl
    as_kept false = refl

-- what the rate limiter says to this request
abbrev pub allowed : Env → OtelSampler → Bool
allowed env sampler =
    (is_allowed (record { refill = env.refill; count = env.count }) sampler.limiter).0

limit_sample-Decided :
    (env : Env) (sampler : OtelSampler) (r : ℕ) (o : Option ℕ) (w : World)
    → (w.spans r).context ≡ o
    → Decided r o (allowed env sampler) (limit_sample env sampler r w)
unfolding limit_sample
limit_sample-Decided env sampler r o w e =
    let limiter =
      (is_allowed (record { refill = env.refill; count = env.count }) sampler.limiter).1 in
    let w' = on_limiter sampler limiter (set_priority r auto_keep w) in
    let same : (w'.spans r).context ≡ o =
      ap (λ i. i.context) ((set_priority-Keeps r auto_keep w).spans r) ∙ e in
    elim (Bool-cases (allowed env sampler)) [
      | inl passed ↦ simp passed (
          conclude-Decided r o true _
            (ap (λ i. i.context) ((metric-Keeps r _ _ w').spans r) ∙ same))
      | inr refused ↦ simp refused (conclude-Decided r o false w' same)
    ]

apply_rule-Decided :
    (env : Env) (sampler : OtelSampler) (rule : SamplingRule) (r : ℕ) (o : Option ℕ) (w : World)
    → (w.spans r).context ≡ o
    → Decided r o
        (rule_sample rule (w.spans r).trace_id && allowed env sampler)
        (apply_rule env sampler rule r w)
unfolding apply_rule
apply_rule-Decided env sampler rule r o w e =
    let same = ap (λ i. i.context) ((metric-Keeps r _ _ w).spans r) ∙ e in
    elim (Bool-cases (rule_sample rule (w.spans r).trace_id)) [
      | inl hit ↦ simp hit (limit_sample-Decided env sampler r o _ same)
      | inr miss ↦ simp miss (conclude-Decided r o false _ same)
    ]

-- The rule for a span: the first that matches, or the default one.
abbrev pub rule_for : OtelSampler → Span → SamplingRule
rule_for sampler span =
    or_default (first_match span.service span.name sampler.rules) sampler.default_sampler

-- The decision of a call that returned.
abbrev pub Outcome : Option ℕ → Bool → ℕ → Result Bool × World → Type 0
Outcome o keeps r x = (x.0 ≡ ok keeps) × ((x.1.spans r).sampled ≡ keeps) × Prioritized o keeps x.1

outcome :
    (r : ℕ) (o : Option ℕ) (keeps : Bool) (x : Bool × World)
    → Decided r o keeps x
    → Outcome o keeps r (ok x.0, x.1)
outcome r o keeps x d = (ap ok d.returned, d.recorded, d.prioritized)

otel_sample_by-Outcome :
    (env : Env) (sampler : OtelSampler) (r : ℕ) (matched : Option SamplingRule) (w : World)
    → Outcome
        (w.spans r).context
        (rule_sample (or_default matched sampler.default_sampler) (w.spans r).trace_id
          && allowed env sampler)
        r
        (otel_sample_by env sampler r matched none w)
otel_sample_by-Outcome env sampler r (some rule) w =
    outcome r (w.spans r).context _ (apply_rule env sampler rule r w)
      (apply_rule-Decided env sampler rule r (w.spans r).context w refl)
otel_sample_by-Outcome env sampler r none w =
    outcome r (w.spans r).context _ (apply_rule env sampler sampler.default_sampler r w)
      (apply_rule-Decided env sampler sampler.default_sampler r (w.spans r).context w refl)

-- Without a priority sampler to fall back to, `sample` returns, and it keeps a trace exactly if the
-- rule for its root keeps the trace id and the rate limiter allows the request; the span is marked
-- with what was returned, and the priority of its context, if it has one, is AUTO_KEEP or AUTO_REJECT
-- accordingly.
pub otel_sample-Decided :
    (env : Env) (sampler : OtelSampler) (r : ℕ) (w : World)
    → sampler.priority_sampler ≡ none
    → Outcome
        (w.spans r).context
        (rule_sample (rule_for sampler (w.spans r)) (w.spans r).trace_id && allowed env sampler)
        r
        (sample env (otel sampler) r w)
unfolding sample otel_sample
otel_sample-Decided env sampler r w alone =
    subst (λ s. Outcome (w.spans r).context keeps r (otel_sample_by env sampler r matched s w))
      (sym alone) (otel_sample_by-Outcome env sampler r matched w)
  where
    matched : Option SamplingRule
    matched = first_match (w.spans r).service (w.spans r).name sampler.rules

    keeps : Bool
    keeps = rule_sample (rule_for sampler (w.spans r)) (w.spans r).trace_id && allowed env sampler
