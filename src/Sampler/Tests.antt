-- ===== src/Sampler/Tests.antt =====
-- oteltrace/sampler.py: the theorems on rates, rules and services at concrete samplers.
use opentelemetry_auto_instr.Common.{◌≡◌, refl, pos, true, some, [], ◌∷◌, ok}
use opentelemetry_auto_instr.Sampler.{
  SampleRate, rate_one, knuth_hash, rate_sampler, rate_sample, at_most, threshold, SamplingRule,
  exactly, no_rule, sampling_rule, first_match, by_service_sampler, set_sample_rate_by_service,
  sampler_for,
}
use opentelemetry_auto_instr.Sampler.Rules.{FirstMatch, first_match-FirstMatch}
use opentelemetry_auto_instr.Sampler.Services.{sampler_for-set_sample_rate_by_service}

abbrev half : SampleRate
half = record { num = pos 1; den = 2 }

abbrev three_quarters : SampleRate
three_quarters = record { num = pos 3; den = 4 }

kept_at_half : rate_sample (rate_sampler half) (pos 1) ≡ true
unfolding rate_sample rate_sampler at_most knuth_hash threshold
kept_at_half = refl

abbrev half_of_web : SamplingRule
half_of_web = record {
  sample_rate = half;
  sampling_id_threshold = record { num = pos 18446744073709551616; den = 2 };
  service = exactly (some "web");
  name = no_rule;
}

built : sampling_rule half (exactly (some "web")) no_rule ≡ ok half_of_web
unfolding sampling_rule threshold
built = refl

first_match-FirstMatch_example :
    FirstMatch
      (some "web")
      "get"
      (half_of_web ∷ [])
      (first_match (some "web") "get" (half_of_web ∷ []))
first_match-FirstMatch_example = first_match-FirstMatch (some "web") "get" (half_of_web ∷ [])

sampler_for-set_sample_rate_by_service_example :
    sampler_for "service:web,env:"
      (set_sample_rate_by_service (("service:web,env:", half) ∷ []) (by_service_sampler rate_one))
    ≡ some (rate_sampler half)
unfolding by_service_sampler
sampler_for-set_sample_rate_by_service_example =
    sampler_for-set_sample_rate_by_service "service:web,env:" (("service:web,env:", half) ∷ [])
      (by_service_sampler rate_one)
