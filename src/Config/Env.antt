-- ===== src/Config/Env.antt =====
-- oteltrace/utils/formats.py: settings from environment variables. The warning on a legacy variable is
-- left out.
use Prim.Native.String.{◌++◌}
use opentelemetry_auto_instr.Common.{
  Bool, false, ◌||◌, Option, none, some, String, Dict, lookup, str_eq, if◌then◌else◌,
}
use opentelemetry_auto_instr.Value.{Number}
use opentelemetry_auto_instr.Text.{lower, upper}

-- The text of a variable, with what `float` makes of it.
pub record EnvText : Type 0 where
  pub content : String
  pub as_float : Option Number

-- `os.environ`
abbrev pub Environ : Type 0
Environ = Dict EnvText

-- a text that is not empty, or else the other
abbrev pub given_or : Option EnvText → Option EnvText → Option EnvText
given_or none other = other
given_or (some t) other = if str_eq t.content "" then other else some t

-- `'{}_{}'.format(integration, variable).upper()`
unfoldable pub env_key : String → String → String
env_key integration variable = upper (integration ++ ("_" ++ variable))

-- `get_env`, with nothing for the default
unfoldable pub get_env : Environ → String → String → Option EnvText
unfolding env_key
get_env environ integration variable =
    let key = env_key integration variable in
    given_or (lookup ("OTEL_" ++ key) environ)
      (given_or (lookup ("OPENTELEMETRY_" ++ key) environ) none)

-- `asbool` of a text, or of the default False
unfoldable pub asbool : Option EnvText → Bool
asbool none = false
asbool (some t) = str_eq (lower t.content) "true" || str_eq (lower t.content) "1"
