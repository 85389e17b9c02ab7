-- ===== src/Value.antt =====
-- The values that callers hand to spans as tags and metrics, by what the code asks of them, and
-- the keys of oteltrace/constants.py and oteltrace/ext/priority.py.
use opentelemetry_auto_instr.Common.{
  ℕ, ℤ, pos, negsuc, Bool, true, false, Option, none, some, String, List, [], ◌∷◌,
}

-- An int, or a float: a finite one is a quotient.
pub data Number : Type 0 where
  whole : ℤ → Number
  fraction : ℤ → ℕ → Number
  nan infinite : Number

-- A text comes with what `float(value)` makes of it, a number with its `str`, and any other object
-- with both; `none` means that `float` raises TypeError or ValueError, or `str` any exception. Values for
-- which `float` raises another error, such as an int too large for a float, are left out.
pub data Value : Type 0 where
  none_value : Value
  text : String → Option Number → Value
  number : Number → String → Value
  object : Option Number → Option String → Value

-- `float(value)`
abbrev pub to_float : Value → Option Number
to_float none_value = none
to_float (text s f) = f
to_float (number n s) = some n
to_float (object f s) = f

-- `stringify(value)`
abbrev pub stringify : Value → Option String
stringify none_value = some "None"
stringify (text s f) = some s
stringify (number n s) = some s
stringify (object f s) = s

-- `not (math.isnan(value) or math.isinf(value))`
abbrev pub is_real : Number → Bool
is_real (whole n) = true
is_real (fraction n d) = true
is_real nan = false
is_real infinite = false

abbrev pub sample_rate_metric_key : String
sample_rate_metric_key = "_sample_rate"

abbrev pub sampling_priority_key : String
sampling_priority_key = "_sampling_priority_v1"

abbrev pub analytics_sample_rate_key : String
analytics_sample_rate_key = "_otel1.sr.eausr"

abbrev pub sampling_agent_decision : String
sampling_agent_decision = "_otel.agent_psr"

abbrev pub sampling_rule_decision : String
sampling_rule_decision = "_otel.rule_psr"

abbrev pub sampling_limit_decision : String
sampling_limit_decision = "_otel.limit_psr"

abbrev pub origin_key : String
origin_key = "_otel.origin"

abbrev pub hostname_key : String
hostname_key = "_otel.hostname"

abbrev pub env_key : String
env_key = "env"

abbrev pub numeric_tags : List String
numeric_tags = analytics_sample_rate_key ∷ []

abbrev pub manual_drop_key : String
manual_drop_key = "manual.drop"

abbrev pub manual_keep_key : String
manual_keep_key = "manual.keep"

abbrev pub user_reject : ℤ
user_reject = negsuc 0

abbrev pub auto_reject : ℤ
auto_reject = pos 0

abbrev pub auto_keep : ℤ
auto_keep = pos 1

abbrev pub user_keep : ℤ
user_keep = pos 2
