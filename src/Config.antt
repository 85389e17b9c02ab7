-- ===== src/Config.antt =====
-- oteltrace/settings/config.py, integration.py and exceptions.py: the configuration of the integrations.
-- A setting that is no dict has no reference to other objects. Log lines are left out.
pub mod Dicts
pub mod Merge
pub mod Env
pub mod Http
pub mod Added
mod Tests
use opentelemetry_auto_instr.Common.{
  ℕ, pos, Bool, true, false, not, ◌&&◌, Option, none, some, String, List, [], ◌∷◌, Dict, lookup,
  insert, Result, ok, raised, attribute_error, value_error, Exec, ◌>>=◌, ◌>>◌, pure, raise, gets,
  modify, or_default, if◌then◌else◌,
}
use opentelemetry_auto_instr.Value.{Number, fraction}
use opentelemetry_auto_instr.Hooks.{Hooks}
use opentelemetry_auto_instr.Config.Dicts.{
  Leaf, none_leaf, flag, numeric, text_leaf, object_leaf, Setting, leaf, dict, Entries, end, entry,
  find, put, set_default,
}
use opentelemetry_auto_instr.Config.Merge.{deepmerge}
use opentelemetry_auto_instr.Config.Env.{EnvText, Environ, get_env, asbool}
use opentelemetry_auto_instr.Config.Http.{
  HttpConfig, new_http, is_header_tracing_configured, trace_headers, header_is_traced,
}

-- `class IntegrationConfig`: its items, and the attributes that are no items.
pub record IntegrationConfig : Type 0 where
  pub integration_name : String
  pub settings : Entries
  pub hooks : Hooks
  pub http : HttpConfig

-- `class Config`
pub record Config : Type 0 where
  pub integrations : Dict IntegrationConfig
  pub http : HttpConfig
  pub analytics_enabled : Bool
  pub report_hostname : Bool

abbrev pub enabled_key : String
enabled_key = "analytics_enabled"

abbrev pub rate_key : String
rate_key = "analytics_sample_rate"

-- the flag that the environment sets for an integration, or None
abbrev pub env_flag : Option EnvText → Leaf
env_flag none = none_leaf
env_flag (some t) = flag (asbool (some t))

-- `float(get_env(name, 'analytics_sample_rate', 1.0))`
abbrev pub env_rate : Option EnvText → Result Leaf
env_rate none = ok (numeric (fraction (pos 1) 1))
env_rate (some t) = elim t.as_float [ none ↦ raised value_error | some n ↦ ok (numeric n) ]

abbrev pub with_rate : String → Entries → Leaf → Result Leaf → Result IntegrationConfig
with_rate name settings enabled (raised e) = raised e
with_rate name settings enabled (ok rate) = ok (record {
  integration_name = name;
  settings = set_default rate_key (leaf rate) (set_default enabled_key (leaf enabled) settings);
  hooks = [];
  http = new_http;
})

-- `IntegrationConfig(global_config, name, settings)`
pub new_integration : Environ → String → Entries → Result IntegrationConfig
new_integration environ name settings =
    with_rate name settings (env_flag (get_env environ name enabled_key))
      (env_rate (get_env environ name rate_key))

-- `IntegrationConfig.__deepcopy__`, which hands the copied items over as the name: `shown` is how that
-- dict is formatted.
pub deepcopy : Environ → String → IntegrationConfig → Result IntegrationConfig
deepcopy environ shown config = elim (new_integration environ shown end) [
  | raised e ↦ raised e
  | ok new ↦ ok (record new { hooks = config.hooks; http = config.http })
]

-- `IntegrationConfig.trace_query_string`
pub trace_query_string : Config → IntegrationConfig → Option Bool
trace_query_string global config = elim config.http.trace_query_string [
  | none ↦ global.http.trace_query_string
  | some b ↦ some b
]

-- `IntegrationConfig.header_is_traced`
unfoldable pub integration_traces : Config → IntegrationConfig → Option String → Bool
unfolding is_header_tracing_configured header_is_traced
integration_traces global config name =
    if is_header_tracing_configured config.http
    then header_is_traced name config.http
    else header_is_traced name global.http

-- `setting is True`, and `setting is False`
abbrev pub is_flag : Bool → Setting → Bool
is_flag b (leaf (flag c)) = if b then c else not c
is_flag b (leaf none_leaf) = false
is_flag b (leaf (numeric n)) = false
is_flag b (leaf (text_leaf s)) = false
is_flag b (leaf (object_leaf o)) = false
is_flag b (dict d) = false

-- `IntegrationConfig._is_analytics_enabled`, which raises if the setting was deleted
pub is_analytics_enabled : Config → IntegrationConfig → Bool → Result Bool
unfolding find
is_analytics_enabled global config use_global_config = elim (find enabled_key config.settings) [
  | none ↦ raised attribute_error
  | some enabled ↦ ok (
      if use_global_config && global.analytics_enabled
      then not (is_flag false enabled)
      else is_flag true enabled)
]

-- What `get_analytics_sample_rate` returns: None, True, or the setting.
pub data SampleRate : Type 0 where
  not_defined always : SampleRate
  rate_of : Setting → SampleRate

abbrev pub rate_or_always : Option Setting → SampleRate
rate_or_always none = always
rate_or_always (some (leaf none_leaf)) = always
rate_or_always (some (leaf (flag b))) = rate_of (leaf (flag b))
rate_or_always (some (leaf (numeric n))) = rate_of (leaf (numeric n))
rate_or_always (some (leaf (text_leaf s))) = rate_of (leaf (text_leaf s))
rate_or_always (some (leaf (object_leaf o))) = rate_of (leaf (object_leaf o))
rate_or_always (some (dict d)) = rate_of (dict d)

-- `IntegrationConfig.get_analytics_sample_rate`
pub get_analytics_sample_rate : Config → IntegrationConfig → Bool → Result SampleRate
unfolding is_analytics_enabled find
get_analytics_sample_rate global config use_global_config =
    elim (is_analytics_enabled global config use_global_config) [
      | raised e ↦ raised e
      | ok enabled ↦
          ok (if enabled then rate_or_always (find rate_key config.settings) else not_defined)
    ]

-- `Config()`
pub new_config : Environ → Config
unfolding get_env asbool
new_config environ =
    let legacy = get_env environ "analytics" "enabled" in
    record {
      integrations = [];
      http = new_http;
      analytics_enabled =
          asbool (elim (get_env environ "trace" "analytics_enabled") [
            | none ↦ legacy
            | some t ↦ some t
          ]);
      report_hostname = asbool (get_env environ "trace" "report_hostname");
    }

abbrev pub store : String → IntegrationConfig → Config → Config
store name integration config = record config {
  integrations = insert name integration config.integrations;
}

abbrev pub store_made : String → Result IntegrationConfig → Exec Config Unit
store_made name (raised e) = raise e
store_made name (ok integration) = modify (store name integration)

-- `self._config[name] = IntegrationConfig(self, name, settings)`
pub register : Environ → String → Entries → Exec Config Unit
register environ name settings = store_made name (new_integration environ name settings)

-- The settings of an integration that is there, or that was made.
abbrev pub settings_made : String → Result IntegrationConfig → Exec Config Entries
settings_made name (raised e) = raise e
settings_made name (ok integration) = do modify (store name integration); pure integration.settings

abbrev pub get_or_make : Environ → String → Option IntegrationConfig → Exec Config Entries
get_or_make environ name (some integration) = pure integration.settings
get_or_make environ name none = settings_made name (new_integration environ name end)

-- `Config.__getattr__`, for a name that is no attribute of the class: the settings of the integration
pub get_settings : Environ → String → Exec Config Entries
get_settings environ name config = get_or_make environ name (lookup name config.integrations) config

abbrev pub register_merged : Environ → String → Result Entries → Exec Config Unit
register_merged environ name (raised e) = raise e
register_merged environ name (ok merged) = register environ name merged

-- `Config._add`; the settings that the caller hands over are copied
pub add : Environ → String → Entries → Bool → Exec Config Unit
unfolding get_settings register
add environ name settings merge = do
  existing ← get_settings environ name
  if merge
      then register_merged environ name (deepmerge existing settings)
      else register environ name settings

-- `Config.trace_headers`
pub trace_global_headers : List (Option String) → Config → Config
unfolding trace_headers
trace_global_headers list config = record config { http = trace_headers list config.http }
