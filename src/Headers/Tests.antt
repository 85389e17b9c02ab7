-- ===== src/Headers/Tests.antt =====
-- oteltrace/http/headers.py at concrete headers.
use opentelemetry_auto_instr.Common.{◌≡◌, refl, none, some, [], ◌∷◌, false, Dict}
use opentelemetry_auto_instr.Value.{Value, text}
use opentelemetry_auto_instr.Span.{set_tags}
use opentelemetry_auto_instr.Span.Plain.{Settled}
use opentelemetry_auto_instr.Config.Dicts.{end}
use opentelemetry_auto_instr.Config.Http.{new_http}
use opentelemetry_auto_instr.Config.{Config, IntegrationConfig}
use opentelemetry_auto_instr.Headers.{normalize_tag_name, store_headers}
use opentelemetry_auto_instr.Headers.Stored.{traced_tags, store_headers-Settled}
use opentelemetry_auto_instr.Examples.{idle}

-- The dash stays, where the comment of the source names `content_type`.
content_type : normalize_tag_name "request" "Content-Type" ≡ "http.request.headers.content-type"
unfolding normalize_tag_name
content_type = refl

abbrev global : Config
global = record {
  integrations = [];
  http = record new_http { whitelist_headers = "content-type" ∷ [] };
  analytics_enabled = false;
  report_hostname = false;
}

abbrev config : IntegrationConfig
config = record { integration_name = "flask"; settings = end; hooks = []; http = new_http }

abbrev headers : Dict Value
headers = ("Content-Type", text "text/html" none) ∷ ("Host", text "localhost" none) ∷ []

store_headers-Settled_example :
    (store_headers global (some config) 0 "request" (some headers) idle
      ≡ set_tags 0 (traced_tags global config "request" headers) idle)
    × Settled (store_headers global (some config) 0 "request" (some headers) idle) idle
store_headers-Settled_example = store_headers-Settled global config 0 "request" headers idle
