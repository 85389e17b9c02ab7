-- ===== src/Examples/Spans.antt =====
-- The theorems on spans' tags and on sampling at concrete spans.
use opentelemetry_auto_instr.Common.{refl, pos, false, none, some, [], ◌∷◌, ◌&&◌, Dict}
use opentelemetry_auto_instr.Value.{Value, text, number, whole}
use opentelemetry_auto_instr.RateLimiter.{init}
use opentelemetry_auto_instr.Sampler.{
  rate_one, no_rule, SamplingRule, OtelSampler, otel, rule_sample,
}
use opentelemetry_auto_instr.Sampling.{sample}
use opentelemetry_auto_instr.Sampling.Keeps.{SampledBy, sample-Kept}
use opentelemetry_auto_instr.Sampling.Decisions.{allowed, rule_for, Outcome, otel_sample-Decided}
use opentelemetry_auto_instr.Examples.{readings, solo}

-- The span 0 of an idle world has no context.
abbrev tags : Dict Value
tags = ("team", text "core" none) ∷ ("shard", number (whole (pos 3)) "3") ∷ []

abbrev every : SamplingRule
every = record {
  sample_rate = rate_one;
  sampling_id_threshold = rate_one;
  service = no_rule;
  name = no_rule;
}

abbrev sampler : OtelSampler
sampler = record {
  default_sampler = every;
  rules = [];
  limiter = init (pos 100) 1000;
  priority_sampler = none;
}

otel_sample-Decided_example :
    Outcome
      (some 0)
      (rule_sample (rule_for sampler ((solo false 0).spans 0)) (pos 66) && allowed readings sampler)
      0
      (sample readings (otel sampler) 0 (solo false 0))
otel_sample-Decided_example = otel_sample-Decided readings sampler 0 (solo false 0) refl

sample-Kept_example : SampledBy (sample readings (otel sampler) 0)
sample-Kept_example = sample-Kept readings (otel sampler) 0
