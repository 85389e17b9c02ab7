-- ===== src/Sampler.antt =====
-- oteltrace/sampler.py: the samplers' own state and decisions. What `sample` does to a span and its
-- context is in Sampling. A rate is a float, hence a quotient of integers; its product with
-- `MAX_TRACE_ID` is exact there and here.
pub mod Hashing
pub mod Rules
pub mod Services
mod Tests
use Prim.Native.String
use opentelemetry_auto_instr.Common.{
  ℕ, ◌+◌, ◌*◌, ◌^◌, ◌%◌, ℤ, pos, negsuc, pos_part, neg_part, scale, mod_ℤ, leb_ℤ, eq_ℤ, Bool, true,
  false, ◌&&◌, Option, none, some, String, List, [], ◌∷◌, Dict, lookup, insert, or_default, Result,
  ok, raised, Error, value_error, ltb, leb, ◌==◌, str_eq, if◌then◌else◌,
}
use opentelemetry_auto_instr.RateLimiter.{RateLimiter}
use opentelemetry_auto_instr.RateLimiter

abbrev pub max_trace_id : ℕ
max_trace_id = 2 ^ 64

abbrev pub knuth_factor : ℕ
knuth_factor = 1111111111111111111

-- The number num / den.
pub record SampleRate : Type 0 where
  pub num : ℤ
  pub den : ℕ

abbrev pub rate_one : SampleRate
rate_one = record { num = pos 1; den = 1 }

-- `rate <= 0` and `rate > 1`, for a positive denominator
abbrev pub not_positive : SampleRate → Bool
not_positive rate = leb_ℤ rate.num (pos 0)

abbrev pub above_one : SampleRate → Bool
above_one rate = ltb rate.den (pos_part rate.num)

-- `(trace_id * KNUTH_FACTOR) % MAX_TRACE_ID`
pub knuth_hash : ℤ → ℕ
knuth_hash trace_id = mod_ℤ (scale trace_id knuth_factor) max_trace_id

-- `sample_rate * MAX_TRACE_ID`
pub threshold : SampleRate → SampleRate
threshold rate = record { num = scale rate.num max_trace_id; den = rate.den }

-- `hash <= threshold`
pub at_most : ℕ → SampleRate → Bool
at_most hash t = leb_ℤ (pos (hash * t.den)) t.num

pub record RateSampler : Type 0 where
  pub sample_rate : SampleRate
  pub sampling_id_threshold : SampleRate

pub set_sample_rate : SampleRate → RateSampler
set_sample_rate rate = record { sample_rate = rate; sampling_id_threshold = threshold rate }

-- `RateSampler(sample_rate)`
pub rate_sampler : SampleRate → RateSampler
unfolding set_sample_rate
rate_sampler rate =
    if not_positive rate
    then set_sample_rate rate_one
    else if above_one rate
    then set_sample_rate rate_one
    else set_sample_rate rate

pub rate_sample : RateSampler → ℤ → Bool
rate_sample s trace_id = at_most (knuth_hash trace_id) s.sampling_id_threshold

pub record RateByServiceSampler : Type 0 where
  pub sample_rate : SampleRate
  pub by_service_samplers : Dict RateSampler

-- `RateByServiceSampler._key`
pub service_key : Option String → Option String → String
service_key service env =
    String.◌++◌ "service:"
      (String.◌++◌ (or_default service "") (String.◌++◌ ",env:" (or_default env "")))

abbrev pub default_key : String
default_key = "service:,env:"

pub new_by_service_sampler : SampleRate → Dict RateSampler
new_by_service_sampler rate = (default_key, rate_sampler rate) ∷ []

-- `RateByServiceSampler(sample_rate)`
pub by_service_sampler : SampleRate → RateByServiceSampler
by_service_sampler rate = record {
  sample_rate = rate;
  by_service_samplers = new_by_service_sampler rate;
}

pub set_service_rate :
    SampleRate → Option String → Option String → RateByServiceSampler → RateByServiceSampler
set_service_rate rate service env s = record s {
  by_service_samplers = insert (service_key service env) (rate_sampler rate) s.by_service_samplers;
}

-- The loop of `set_sample_rate_by_service`.
pub add_rates : List (String × SampleRate) → Dict RateSampler → Dict RateSampler
add_rates [] samplers = samplers
add_rates ((key, rate) ∷ rates) samplers = add_rates rates (insert key (rate_sampler rate) samplers)

pub set_sample_rate_by_service :
    List (String × SampleRate) → RateByServiceSampler → RateByServiceSampler
set_sample_rate_by_service rates s = record s {
  by_service_samplers = add_rates rates (new_by_service_sampler s.sample_rate);
}

-- `self._by_service_samplers.get(key, self._by_service_samplers[self._default_key])`: the default
-- is read first, and raises where it is missing.
pub sampler_for : String → RateByServiceSampler → Option RateSampler
sampler_for key s = elim (lookup default_key s.by_service_samplers) [
  | none ↦ none
  | some d ↦ some (or_default (lookup key s.by_service_samplers) d)
]

-- What a rule asks of a service or a name. A callable, and the `match` of a compiled expression,
-- is the function that it is, with `none` where it raises.
pub data Pattern : Type 0 where
  no_rule : Pattern
  callable : (Option String → Option Bool) → Pattern
  regex : (String → Option Bool) → Pattern
  exactly : Option String → Pattern

pub record SamplingRule : Type 0 where
  pub sample_rate : SampleRate
  pub sampling_id_threshold : SampleRate
  pub service : Pattern
  pub name : Pattern

-- `SamplingRule(sample_rate, service, name)`
pub sampling_rule : SampleRate → Pattern → Pattern → Result SamplingRule
sampling_rule rate service name =
    if leb_ℤ (pos 0) rate.num && leb_ℤ rate.num (pos rate.den)
    then ok (record {
      sample_rate = rate;
      sampling_id_threshold = threshold rate;
      service = service;
      name = name;
    })
    else raised value_error

abbrev pub eq_text : Option String → Option String → Bool
eq_text none none = true
eq_text (some s) (some t) = str_eq s t
eq_text s t = false

pub pattern_matches : Option String → Pattern → Bool
pattern_matches prop no_rule = true
pattern_matches prop (callable f) = or_default (f prop) false
pattern_matches prop (regex f) = or_default (f (or_default prop "None")) false
pattern_matches prop (exactly value) = eq_text prop value

-- `SamplingRule.matches`, at the span's service and name
pub matches : Option String → String → SamplingRule → Bool
unfolding pattern_matches
matches service name rule =
    pattern_matches service rule.service && pattern_matches (some name) rule.name

-- `SamplingRule.sample`
pub rule_sample : SamplingRule → ℤ → Bool
rule_sample rule trace_id =
    if eq_ℤ rule.sample_rate.num (pos rule.sample_rate.den)
    then true
    else if eq_ℤ rule.sample_rate.num (pos 0)
    then false
    else at_most (knuth_hash trace_id) rule.sampling_id_threshold

-- The `for` loop of `OpenTelemetrySampler.sample`, with `none` for its `else`.
pub first_match : Option String → String → List SamplingRule → Option SamplingRule
unfolding matches
first_match service name [] = none
first_match service name (rule ∷ rules) =
    let rest = first_match service name rules in
    if matches service name rule then some rule else rest

-- `OpenTelemetrySampler`; its priority sampler is a reference to a shared RateByServiceSampler.
pub record OtelSampler : Type 0 where
  pub default_sampler : SamplingRule
  pub rules : List SamplingRule
  pub limiter : RateLimiter
  pub priority_sampler : Option ℕ

pub data Sampler : Type 0 where
  all_traces : Sampler
  rated : RateSampler → Sampler
  by_service : ℕ → Sampler
  otel : OtelSampler → Sampler
