-- ===== src/Config/Tests.antt =====
-- oteltrace/settings/ at concrete settings, and its theorems applied to them.
use opentelemetry_auto_instr.Common.{
  ◌≡◌, refl, pos, true, false, some, none, [], ◌∷◌, ◌||◌, ok, lookup, any_of,
}
use opentelemetry_auto_instr.Value.{fraction}
use opentelemetry_auto_instr.Text.{lower, upper, strip}
use opentelemetry_auto_instr.Config.Dicts.{
  none_leaf, flag, numeric, text_leaf, leaf, dict, Entries, end, entry, find, put, AreKeyed,
}
use opentelemetry_auto_instr.Config.Merge.{deepmerge}
use opentelemetry_auto_instr.Config.Merge.Total.{Fits, deepmerge-Fits}
use opentelemetry_auto_instr.Config.Env.{Environ, get_env}
use opentelemetry_auto_instr.Config.Http.{new_http, trace_headers, header_is_traced}
use opentelemetry_auto_instr.Config.Http.Traced.{names, header_is_traced-trace_headers}
use opentelemetry_auto_instr.Config.{
  IntegrationConfig, Config, new_config, add, enabled_key, rate_key,
}
use opentelemetry_auto_instr.Config.Added.{Added, add-Added, First, add-First, IsConfigured}

abbrev environ : Environ
environ =
    (
      "OTEL_FLASK_ANALYTICS_SAMPLE_RATE",
      record { content = "0.5"; as_float = some (fraction (pos 1) 2) },
    )
    ∷ ("OPENTELEMETRY_TRACE_ANALYTICS_ENABLED", record { content = "True"; as_float = none })
    ∷ []

legacy_variable : (new_config environ).analytics_enabled ≡ true
unfolding new_config get_env lookup lower upper
legacy_variable = refl

abbrev defaults : Entries
defaults = entry enabled_key (leaf (flag true)) (
    entry "service_name" (leaf (text_leaf "flask"))
      (entry "tags" (dict (entry "env" (leaf (text_leaf "dev")) end)) end))

abbrev start : Config
start = record {
  integrations = [];
  http = new_http;
  analytics_enabled = false;
  report_hostname = false;
}

add-First_example :
    ((add environ "flask" defaults true start).0 ≡ ok tt)
    × First environ "flask" defaults
        (numeric (fraction (pos 1) 2))
        (add environ "flask" defaults true start).1
unfolding lookup get_env upper
add-First_example =
    add-First environ "flask" defaults (numeric (fraction (pos 1) 2)) start refl refl

-- what the user has set
abbrev existing : IntegrationConfig
existing = record {
  integration_name = "flask";
  settings = entry "tags" (dict (entry "team" (leaf (text_leaf "web")) end)) (
      entry enabled_key (leaf none_leaf)
        (entry rate_key (leaf (numeric (fraction (pos 1) 1))) end));
  hooks = [];
  http = new_http;
}

existing-IsConfigured : IsConfigured existing.settings
unfolding AreKeyed find
existing-IsConfigured = record {
  keyed = (refl, (refl, tt, tt), (refl, tt, (refl, tt, tt)));
  enabled = leaf none_leaf;
  rate = leaf (numeric (fraction (pos 1) 1));
  has_enabled = refl;
  has_rate = refl;
}

abbrev set_up : Config
set_up = record start { integrations = ("flask", existing) ∷ [] }

add-Added_example :
    ((add environ "flask" defaults true set_up).0 ≡ ok tt)
    × Added "flask" defaults existing.settings set_up (add environ "flask" defaults true set_up).1
unfolding lookup get_env upper Fits find
add-Added_example =
    add-Added environ "flask" defaults (numeric (fraction (pos 1) 2)) set_up existing refl
      existing-IsConfigured ((tt, tt), (tt, (tt, tt))) refl

deepmerge-Fits_example : (r : Entries) × (deepmerge existing.settings defaults ≡ ok r)
unfolding Fits find
deepmerge-Fits_example =
    deepmerge-Fits existing.settings defaults existing-IsConfigured.keyed ((tt, tt), (tt, (tt, tt)))

header_is_traced-trace_headers_example :
    header_is_traced
      (some "X-Request-Id")
      (trace_headers (some " x-request-id" ∷ none ∷ []) new_http)
    ≡ (header_is_traced (some "X-Request-Id") new_http
        || any_of (names "X-Request-Id") (some " x-request-id" ∷ none ∷ []))
header_is_traced-trace_headers_example =
    header_is_traced-trace_headers (some " x-request-id" ∷ none ∷ []) new_http "X-Request-Id"

traces_whatever_case :
    header_is_traced
      (some "X-Request-Id")
      (trace_headers (some " x-request-id" ∷ none ∷ []) new_http)
    ≡ true
unfolding header_is_traced trace_headers lower strip
traces_whatever_case = refl

abbrev merged : Entries
merged = entry enabled_key (leaf none_leaf) (
    entry "service_name" (leaf (text_leaf "flask")) (
      entry "tags"
        (dict (entry "env" (leaf (text_leaf "dev")) (entry "team" (leaf (text_leaf "web")) end)))
        (entry rate_key (leaf (numeric (fraction (pos 1) 1))) end)))

deepmerge-defaults : deepmerge existing.settings defaults ≡ ok merged
unfolding deepmerge find put
deepmerge-defaults = refl
