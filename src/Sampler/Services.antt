-- ===== src/Sampler/Services.antt =====
-- oteltrace/sampler.py: which rate `RateByServiceSampler` applies to a service.
use mathlib.Core.Path.{subst}
use opentelemetry_auto_instr.Common.{
  ◌≡◌, refl, ap, ◌∙◌, sym, Bool, true, false, Option, none, some, String, List, [], ◌∷◌, arith,
  lookup, insert, Dict, lookup-insert, or_default, str_eq, eq_iff, if◌then◌else◌, Bool-cases, inl,
  inr,
}
use opentelemetry_auto_instr.Sampler.{
  SampleRate, RateSampler, rate_sampler, RateByServiceSampler, default_key, new_by_service_sampler,
  add_rates, set_sample_rate_by_service, sampler_for,
}

-- The last rate that a response of the agent gives for a key, or else the one before it.
abbrev pub last_rate : String → List (String × SampleRate) → Option SampleRate → Option SampleRate
last_rate key [] found = found
last_rate key ((k, rate) ∷ rates) found =
    last_rate key rates (if str_eq k key then some rate else found)

abbrev mapped : Option SampleRate → Option RateSampler
mapped none = none
mapped (some rate) = some (rate_sampler rate)

mapped-if :
    (hit : Bool) (rate : SampleRate) (found : Option SampleRate)
    → mapped (if hit then some rate else found)
      ≡ (if hit then some (rate_sampler rate) else mapped found)
mapped-if true rate found = refl
mapped-if false rate found = refl

lookup-add_rates :
    (key : String) (rates : List (String × SampleRate)) (samplers : Dict RateSampler)
    (found : Option SampleRate)
    → lookup key samplers ≡ mapped found
    → lookup key (add_rates rates samplers) ≡ mapped (last_rate key rates found)
unfolding add_rates
lookup-add_rates key [] samplers found e = e
lookup-add_rates key ((k, rate) ∷ rates) samplers found e =
    lookup-add_rates key rates (insert k (rate_sampler rate) samplers) _
      (rw (lookup-insert, e, mapped-if) refl)

-- What the samplers hold for the default key.
abbrev pub default_rate : List (String × SampleRate) → SampleRate → SampleRate
default_rate rates rate = or_default (last_rate default_key rates (some rate)) rate

last_rate-some :
    (key : String) (rates : List (String × SampleRate)) (rate : SampleRate)
    → last_rate key rates (some rate) ≡ some (or_default (last_rate key rates none) rate)
last_rate-some key [] rate = refl
last_rate-some key ((k, r) ∷ rates) rate = elim (Bool-cases (str_eq k key)) [
  | inl hit ↦ rw hit (rw (last_rate-some key rates r) refl)
  | inr miss ↦ rw miss (last_rate-some key rates rate)
]

lookup-new_by_service_sampler :
    (key : String) (rate : SampleRate)
    → lookup key (new_by_service_sampler rate)
      ≡ mapped (if str_eq default_key key then some rate else none)
unfolding lookup new_by_service_sampler
lookup-new_by_service_sampler key rate = ground arith

lookup-rated :
    (key : String) (rates : List (String × SampleRate)) (rate : SampleRate)
    → lookup key (add_rates rates (new_by_service_sampler rate))
      ≡ mapped (last_rate key rates (if str_eq default_key key then some rate else none))
lookup-rated key rates rate =
    lookup-add_rates key rates (new_by_service_sampler rate)
      (if str_eq default_key key then some rate else none) (lookup-new_by_service_sampler key rate)

lookup-default :
    (rates : List (String × SampleRate)) (rate : SampleRate)
    → lookup default_key (add_rates rates (new_by_service_sampler rate))
      ≡ mapped (some (default_rate rates rate))
lookup-default rates rate =
    rw (lookup-rated default_key rates rate, last_rate-some default_key rates rate) refl

-- the sampler that a lookup ends with
abbrev chosen : Option RateSampler → Option RateSampler → Option RateSampler
chosen none own = none
chosen (some d) own = some (or_default own d)

sampler_for-chosen :
    (key : String) (s : RateByServiceSampler)
    → sampler_for key s
      ≡ chosen (lookup default_key s.by_service_samplers) (lookup key s.by_service_samplers)
unfolding sampler_for
sampler_for-chosen key s = ground arith

chosen-mapped :
    (own : Option SampleRate) (d : SampleRate)
    → chosen (mapped (some d)) (mapped own) ≡ some (rate_sampler (or_default own d))
chosen-mapped none d = refl
chosen-mapped (some rate) d = refl

or_default_twice {ℓ} :
    {A : Type ℓ} (o : Option A) (d : A) → or_default o (or_default o d) ≡ or_default o d
or_default_twice none d = refl
or_default_twice (some a) d = refl

default_for_itself :
    (rates : List (String × SampleRate)) (rate : SampleRate)
    → or_default (last_rate default_key rates (some rate)) (default_rate rates rate)
      ≡ or_default (last_rate default_key rates none) (default_rate rates rate)
default_for_itself rates rate =
    rw (last_rate-some default_key rates rate)
      (sym (or_default_twice (last_rate default_key rates none) rate))

own_rate :
    (key : String) (rates : List (String × SampleRate)) (rate : SampleRate)
    → or_default
        (last_rate key rates (if str_eq default_key key then some rate else none))
        (default_rate rates rate)
      ≡ or_default (last_rate key rates none) (default_rate rates rate)
own_rate key rates rate = elim (Bool-cases (str_eq default_key key)) [
  | inl hit ↦ rw hit (
      subst
        (λ k.
          or_default (last_rate k rates (some rate)) (default_rate rates rate)
          ≡ or_default (last_rate k rates none) (default_rate rates rate))
        ((eq_iff default_key key).0 hit) (default_for_itself rates rate))
  | inr miss ↦ rw miss refl
]

-- After the rates of an agent's response, a key is sampled at the last rate that the response gives
-- for it, any other key at the response's rate for the default key, and if there is none at the
-- sampler's own rate. Rates of earlier responses are forgotten, and the lookup does not raise.
pub sampler_for-set_sample_rate_by_service :
    (key : String) (rates : List (String × SampleRate)) (s : RateByServiceSampler)
    → sampler_for key (set_sample_rate_by_service rates s)
      ≡ some
          (rate_sampler (or_default (last_rate key rates none) (default_rate rates s.sample_rate)))
unfolding set_sample_rate_by_service
sampler_for-set_sample_rate_by_service key rates s =
    rw
      (sampler_for-chosen, lookup-default rates s.sample_rate, lookup-rated key rates s.sample_rate)
      (chosen-mapped
          (last_rate key rates (if str_eq default_key key then some s.sample_rate else none))
          (default_rate rates s.sample_rate)
        ∙ ap (λ r. some (rate_sampler r)) (own_rate key rates s.sample_rate))
