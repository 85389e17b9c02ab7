-- ===== src/Headers.antt =====
-- oteltrace/http/headers.py: the traced headers of a request or a response as tags of its span. Log
-- lines are left out.
pub mod Names
pub mod Stored
mod Tests
use Prim.Native.Char.{Char, code}
use Prim.Native.String.{◌++◌}
use opentelemetry_auto_instr.Common.{
  ℕ, ◌==◌, Bool, true, false, ◌||◌, ◌&&◌, Option, none, some, String, [], ◌∷◌, Dict, leb, Exec,
  ◌>>=◌, ◌>>◌, pure, if◌then◌else◌,
}
use opentelemetry_auto_instr.Value.{Value}
use opentelemetry_auto_instr.World.{World}
use opentelemetry_auto_instr.Span.{set_tag}
use opentelemetry_auto_instr.Text.{lower, strip}
use opentelemetry_auto_instr.Config.{Config, IntegrationConfig, integration_traces}

-- [a-z0-9_\-:/]
abbrev pub is_tag_char : Char → Bool
is_tag_char c =
    (leb 97 (code c) && leb (code c) 122)
    || ((leb 48 (code c) && leb (code c) 57)
        || ((code c == 95) || ((code c == 45) || ((code c == 58) || (code c == 47)))))

-- `NORMALIZE_PATTERN.sub('_', text)`
pub replace_chars : String → String
replace_chars String.[] = ""
replace_chars (String.◌∷◌ c s) = String.◌∷◌ (if is_tag_char c then c else "_") (replace_chars s)

-- `_normalize_tag_name`
pub normalize_tag_name : String → String → String
unfolding replace_chars lower strip
normalize_tag_name request_or_response header_name =
    "http." ++ (request_or_response ++ (".headers." ++ replace_chars (lower (strip header_name))))

-- The loop of `_store_headers`.
pub store_each : Config → IntegrationConfig → ℕ → String → Dict Value → Exec World Unit
unfolding integration_traces normalize_tag_name
store_each global config r request_or_response [] = pure tt
store_each global config r request_or_response ((header_name, header_value) ∷ headers) = do
  if integration_traces global config (some header_name)
      then set_tag r (normalize_tag_name request_or_response header_name) header_value
      else pure tt
  store_each global config r request_or_response headers

-- `_store_headers`; `none` stands for headers that are no dict and that `dict` raises on.
pub store_headers :
    Config → Option IntegrationConfig → ℕ → String → Option (Dict Value) → Exec World Unit
unfolding store_each
store_headers global config r request_or_response none = pure tt
store_headers global none r request_or_response (some headers) = pure tt
store_headers global (some config) r request_or_response (some headers) =
    store_each global config r request_or_response headers

-- `store_request_headers`, and `store_response_headers`
pub store_request_headers :
    Config → Option IntegrationConfig → ℕ → Option (Dict Value) → Exec World Unit
unfolding store_headers
store_request_headers global config r headers = store_headers global config r "request" headers

pub store_response_headers :
    Config → Option IntegrationConfig → ℕ → Option (Dict Value) → Exec World Unit
unfolding store_headers
store_response_headers global config r headers = store_headers global config r "response" headers
