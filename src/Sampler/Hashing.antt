-- ===== src/Sampler/Hashing.antt =====
-- oteltrace/sampler.py: the decision of `RateSampler` and `SamplingRule` as a function of the trace
-- id.
use native.Mathlib.Nat.{le_of_mul-le-mul_right, mul-le-mul_right}
use opentelemetry_auto_instr.Common.{
  ℕ, ◌*◌, ◌%◌, ◌≤◌, ◌<◌, ◌≡◌, ℤ, pos, true, false, ◌⊎◌, ◌==◌, arith, pos_part, neg_part, leb,
  if◌then◌else◌, scale, ok,
}
use opentelemetry_auto_instr.Sampler.{
  max_trace_id, SampleRate, rate_one, knuth_hash, threshold, at_most, set_sample_rate, rate_sampler,
  rate_sample, SamplingRule, Pattern, sampling_rule, rule_sample,
}

-- The inverse of `KNUTH_FACTOR` modulo 2^64.
abbrev pub knuth_inverse : ℕ
knuth_inverse = 3396998997810348023

knuth_hash-pos : (n : ℕ) → knuth_hash (pos n) ≡ (n * 1111111111111111111) % 18446744073709551616
unfolding knuth_hash
knuth_hash-pos n = ground arith

knuth_hash-lt : (n : ℤ) → knuth_hash n < 18446744073709551616
unfolding knuth_hash
knuth_hash-lt n = ground arith

-- The hash permutes the trace ids below 2^64: each id is recovered from its hash, and each number
-- below 2^64 is the hash of an id.
pub knuth_hash_permutes :
    (n : ℕ)
    → n < max_trace_id
    → ((knuth_hash (pos n) * knuth_inverse) % max_trace_id ≡ n)
      × (knuth_hash (pos ((n * knuth_inverse) % max_trace_id)) ≡ n)
knuth_hash_permutes n h = (
  omega (arith, knuth_hash-pos n),
  omega (arith, knuth_hash-pos ((n * knuth_inverse) % max_trace_id)),
)

-- the order of two rates
infix 50 ◌≤rate◌
abbrev pub ◌≤rate◌ : SampleRate → SampleRate → Type 0
a ≤rate b = pos_part a.num * b.den ≤ pos_part b.num * a.den

-- above 0 and at most 1
abbrev pub InUnit : SampleRate → Type 0
InUnit rate = (0 < pos_part rate.num) × (pos_part rate.num ≤ rate.den)

rate_sampler-InUnit : (rate : SampleRate) → 0 < rate.den → InUnit (rate_sampler rate).sample_rate
unfolding rate_sampler
rate_sampler-InUnit rate h = ground arith

scaled_parts : (n k : ℕ) → (pos_part (scale (pos n) k) ≡ n * k) × (neg_part (scale (pos n) k) ≡ 0)
scaled_parts n k = ground arith

-- the test of a non-negative rate in plain numbers
at_most-threshold :
    (n den hash : ℕ)
    → at_most hash (threshold (record { num = pos n; den = den }))
      ≡ leb (hash * den) (n * 18446744073709551616)
unfolding at_most threshold
at_most-threshold n den hash = ground (arith, scaled_parts n 18446744073709551616)

unit_sampler :
    (n den : ℕ)
    → 0 < n
    → n ≤ den
    → rate_sampler (record { num = pos n; den = den })
      ≡ set_sample_rate (record { num = pos n; den = den })
unfolding rate_sampler
unit_sampler n den h k = ground arith

rate_sample-unit :
    (n den : ℕ) (trace_id : ℤ)
    → 0 < n
    → n ≤ den
    → rate_sample (rate_sampler (record { num = pos n; den = den })) trace_id
      ≡ leb (knuth_hash trace_id * den) (n * 18446744073709551616)
unfolding set_sample_rate rate_sample
rate_sample-unit n den trace_id h k =
    rw (unit_sampler n den h k) (at_most-threshold n den (knuth_hash trace_id))

chain_thresholds : (h n d n' d' m : ℕ) → 0 < d → h * d ≤ n * m → n * d' ≤ n' * d → h * d' ≤ n' * m
chain_thresholds h n d n' d' m pd p q =
    le_of_mul-le-mul_right (omega (arith, mul-le-mul_right d' p, mul-le-mul_right m q)) pd

-- A trace that is kept at one rate is kept at every higher rate, so samplers that are chained agree:
-- for rates n/d and n'/d' above 0 and at most 1, with n/d at most n'/d'.
pub rate_sample_mono :
    (n d n' d' : ℕ) (trace_id : ℤ)
    → 0 < n
    → n ≤ d
    → 0 < n'
    → n' ≤ d'
    → n * d' ≤ n' * d
    → rate_sample (rate_sampler (record { num = pos n; den = d })) trace_id ≡ true
    → rate_sample (rate_sampler (record { num = pos n'; den = d' })) trace_id ≡ true
rate_sample_mono n d n' d' trace_id pn nd pn' nd' order kept =
    rw (rate_sample-unit n' d' trace_id pn' nd') (
      ground (
        arith,
        rate_sample-unit n d trace_id pn nd,
        chain_thresholds (knuth_hash trace_id) n d n' d' 18446744073709551616,
      ))

full_rate : (trace_id : ℤ) → rate_sample (set_sample_rate rate_one) trace_id ≡ true
unfolding rate_sample set_sample_rate
full_rate trace_id =
    ground (arith, knuth_hash-lt trace_id, at_most-threshold 1 1 (knuth_hash trace_id))

clamped :
    (rate : SampleRate)
    → 0 < rate.den
    → (pos_part rate.num ≡ 0) ⊎ (rate.den < pos_part rate.num)
    → rate_sampler rate ≡ set_sample_rate rate_one
unfolding rate_sampler
clamped rate h out = ground arith

-- A RateSampler of a rate above 1, or of one that is zero or negative, keeps every trace.
pub rate_sampler_keeps_all :
    (rate : SampleRate) (trace_id : ℤ)
    → 0 < rate.den
    → (pos_part rate.num ≡ 0) ⊎ (rate.den < pos_part rate.num)
    → rate_sample (rate_sampler rate) trace_id ≡ true
rate_sampler_keeps_all rate trace_id h out = rw (clamped rate h out) (full_rate trace_id)

rule_cases :
    (n d hash : ℕ)
    → hash < 18446744073709551616
    → 0 < n
    → (if n == d then true else if n == 0 then false else leb (hash * d) (n * 18446744073709551616))
      ≡ leb (hash * d) (n * 18446744073709551616)
rule_cases n d hash lt h = ground (arith, λ (e : n ≡ d). mul-le-mul_right n lt)

-- The same rate n/d above 0 and at most 1 decides alike as a RateSampler and as a SamplingRule.
pub rule_sample-rate_sample :
    (n d : ℕ) (service name : Pattern) (rule : SamplingRule) (trace_id : ℤ)
    → 0 < n
    → n ≤ d
    → sampling_rule (record { num = pos n; den = d }) service name ≡ ok rule
    → rule_sample rule trace_id
      ≡ rate_sample (rate_sampler (record { num = pos n; den = d })) trace_id
unfolding sampling_rule rule_sample
rule_sample-rate_sample n d service name rule trace_id pn nd built =
    rw (rate_sample-unit n d trace_id pn nd) (
      ground (
        arith,
        rule_cases n d (knuth_hash trace_id) (knuth_hash-lt trace_id),
        at_most-threshold n d (knuth_hash trace_id),
      ))
