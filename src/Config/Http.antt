-- ===== src/Config/Http.antt =====
-- oteltrace/settings/http.py and oteltrace/utils/http.py: the headers that are traced. The log lines
-- are left out.
pub mod Traced
use opentelemetry_auto_instr.Common.{
  Bool, true, false, ◌||◌, Option, none, some, String, List, [], ◌∷◌, ◌++◌, member, str_eq,
  if◌then◌else◌,
}
use opentelemetry_auto_instr.Text.{lower, strip}

-- `class HttpConfig`; its whitelist is a set.
pub record HttpConfig : Type 0 where
  pub whitelist_headers : List String
  pub trace_query_string : Option Bool

-- `HttpConfig()`
abbrev pub new_http : HttpConfig
new_http = record { whitelist_headers = []; trace_query_string = none }

-- `normalize_header_name`
unfoldable pub normalize_header_name : Option String → Option String
normalize_header_name none = none
normalize_header_name (some name) = some (lower (strip name))

-- `is_header_tracing_configured`
unfoldable pub is_header_tracing_configured : HttpConfig → Bool
is_header_tracing_configured http = elim http.whitelist_headers [ [] ↦ false | ◌∷◌ h hs ↦ true ]

-- one entry of the list: a name that is missing or empty is left out
unfoldable pub add_header : Option String → HttpConfig → HttpConfig
add_header none http = http
add_header (some name) http =
    if str_eq name "" || member name http.whitelist_headers
    then http
    else record http { whitelist_headers = http.whitelist_headers ++ name ∷ [] }

-- `HttpConfig.trace_headers`, for a list of names; a text is the list of it.
unfoldable pub trace_headers : List (Option String) → HttpConfig → HttpConfig
unfolding add_header normalize_header_name
trace_headers [] http = http
trace_headers (name ∷ names) http =
    trace_headers names (add_header (normalize_header_name name) http)

abbrev pub is_member : Option String → List String → Bool
is_member none names = false
is_member (some name) names = member name names

-- `HttpConfig.header_is_traced`
unfoldable pub header_is_traced : Option String → HttpConfig → Bool
unfolding normalize_header_name
header_is_traced name http = is_member (normalize_header_name name) http.whitelist_headers
