-- ===== src/Contrib/Requests.antt =====
-- oteltrace/contrib/requests/connection.py: the requests of an HTTP client. How an address is parsed, and
-- what sending a request does, are parameters.
pub mod Sends
mod Tests
use Prim.Native.String.{◌++◌}
use opentelemetry_auto_instr.Common.{
  ℕ, zero, suc, ◌+◌, ℤ, pos, negsuc, leb, Bool, true, false, ◌&&◌, Option, none, some, String, Dict,
  [], str_eq, Error, Result, ok, raised, attribute_error, Exec, ◌>>=◌, ◌>>◌, pure, modify,
  or_default, if◌then◌else◌,
}
use opentelemetry_auto_instr.Value.{whole, Value, text, number, analytics_sample_rate_key}
use opentelemetry_auto_instr.World.{World, Span, on_span}
use opentelemetry_auto_instr.Span.{set_tag}
use opentelemetry_auto_instr.Text.{upper}
use opentelemetry_auto_instr.Tracer.{StartArgs}
use opentelemetry_auto_instr.Propagation.{show, inject}
use opentelemetry_auto_instr.Config.{Config, IntegrationConfig, trace_query_string}
use opentelemetry_auto_instr.Headers.{store_request_headers, store_response_headers}
use opentelemetry_auto_instr.Traced.{
  Program, Readings, with_span, on_tracing, on_rest, after_all, text_values,
}

-- An address as `urlparse` gives it; `sanitized` is the address without its query.
pub record Uri : Type 0 where
  pub hostname : Option String
  pub port : Option ℕ
  pub sanitized : String
  pub query : String

pub record Request : Type 0 where
  pub method : String
  pub headers : Dict String
  pub uri : Uri

-- A response, with its headers if it has that attribute
pub record Response : Type 0 where
  pub status_code : ℤ
  pub headers : Option (Dict Value)

-- The settings of a session, as `config.get_from(session)` has them: all those that it starts with.
pub record SessionConfig : Type 0 where
  pub split_by_domain : Bool
  pub service_name : String
  pub analytics_enabled : Bool
  pub analytics_sample_rate : Value
  pub distributed_tracing : Bool

abbrev pub default_service : String
default_service = "requests"

abbrev pub host_text : Option String → String
host_text none = "None"
host_text (some host) = host

-- the host with its port
abbrev pub host_of : Option String → Option ℕ → Option String
host_of hostname none = hostname
host_of hostname (some zero) = hostname
host_of hostname (some (suc port)) = some (host_text hostname ++ (":" ++ show (pos (suc port))))

abbrev pub is_given : Option String → Bool
is_given none = false
is_given (some s) = if str_eq s "" then false else true

-- the service of the parent of a span
abbrev pub service_of : Option ℕ → World → Option String
service_of none w = none
service_of (some parent) w = (w.spans parent).service

abbrev pub configured_service : String → Option String → Option String
configured_service name none = some name
configured_service name (some inherited) =
    some (if str_eq name default_service then inherited else name)

-- `_extract_service_name`
pub extract_service_name : SessionConfig → ℕ → Option String → World → Option String
extract_service_name cfg r hostname w =
    if cfg.split_by_domain && is_given hostname
    then hostname
    else configured_service cfg.service_name (service_of (w.spans r).parent w)

-- `propagator.inject(span.context, request.headers)`, with the default propagator: the headers of the
-- request from then on
abbrev pub inject_into : Option ℕ → Dict String → Exec World (Dict String)
inject_into none headers w = (raised attribute_error, w)
inject_into (some c) headers w = (ok (inject (w.contexts c) headers), w)

abbrev pub named : SessionConfig → ℕ → Option String → World → World
named cfg r hostname w =
    on_span r (λ span. record span { service = extract_service_name cfg r hostname w }) w

-- What the handler does in the span before it sends the request: the headers that are sent.
pub prepare :
    Readings → Config → IntegrationConfig → SessionConfig → Request → ℕ → Exec World (Dict String)
prepare at global config cfg request r = do
  modify (named cfg r (host_of request.uri.hostname request.uri.port))
  if cfg.analytics_enabled
      then set_tag r analytics_sample_rate_key cfg.analytics_sample_rate
      else pure tt
  headers ← (λ w.
      if cfg.distributed_tracing
      then inject_into (w.spans r).context request.headers w
      else (ok request.headers, w))
  store_request_headers global (some config) r (some (text_values at.as_float headers))
  pure headers

abbrev pub is_server_error : ℤ → ℕ
is_server_error (pos n) = if leb 500 n then 1 else 0
is_server_error (negsuc n) = 0

-- the tags of a response
abbrev pub response_tags : Config → IntegrationConfig → ℕ → Option Response → Exec World Unit
response_tags global config r none = pure tt
response_tags global config r (some response) = do
  set_tag r "http.status_code" (number (whole response.status_code) (show response.status_code))
  modify (on_span r (λ span. record span { error = is_server_error response.status_code }))
  store_response_headers global (some config) r (some (or_default response.headers []))

abbrev pub is_set : Option Bool → Bool
is_set none = false
is_set (some b) = b

-- The tags that are set whether the request was sent or raised.
pub final_tags :
    Readings → Config → IntegrationConfig → Request → ℕ → Option Response → Exec World Unit
final_tags at global config request r response = do
  set_tag r "http.method" (text (upper request.method) (at.as_float (upper request.method)))
  set_tag r "http.url" (text request.uri.sanitized (at.as_float request.uri.sanitized))
  if is_set (trace_query_string global config)
      then set_tag r "http.query.string" (text request.uri.query (at.as_float request.uri.query))
      else pure tt
  response_tags global config r response

-- `try: ... except Exception`
abbrev pub caught : Exec World Unit → Exec World Unit
caught m w = (ok tt, (m w).1)

-- the headers of a response that has some
abbrev pub store_answer : Config → IntegrationConfig → ℕ → Option (Dict Value) → Exec World Unit
store_answer global config r none = pure tt
store_answer global config r (some headers) =
    store_response_headers global (some config) r (some headers)

abbrev pub response_of : Result Response → Option Response
response_of (ok response) = some response
response_of (raised e) = none

abbrev pub request_args : StartArgs
request_args = record {
  name = "requests.request";
  service = none;
  resource = none;
  span_type = some "http";
}

module _ {X : Type 0} where
  abbrev pub answered :
      Config → IntegrationConfig → ℕ → Result Response → Program X → Result Response × Program X
  answered global config r (raised e) p = (raised e, p)
  answered global config r (ok response) p =
      (on_tracing (store_answer global config r response.headers) >> pure response) p

  -- `try: response = func(...); ... finally: ...`
  pub send :
      Readings
      → Config
      → IntegrationConfig
      → Request
      → ℕ
      → Exec X Response
      → Exec (Program X) Response
  send at global config request r func p =
      let (res, p₁) = on_rest func p in
      let (res', p₂) = answered global config r res p₁ in
      let (done, p₃) =
        on_tracing (caught (final_tags at global config request r (response_of res))) p₂ in
      (after_all res' done, p₃)

  abbrev pub in_request_span :
      Readings
      → Config
      → IntegrationConfig
      → SessionConfig
      → Request
      → (Dict String → Exec X Response)
      → ℕ
      → Exec (Program X) Response
  in_request_span at global config cfg request func r = do
    headers ← on_tracing (prepare at global config cfg request r)
    send at global config request r (func headers)

  -- `_wrap_send`, for a request that is given; `func` sends it with its headers.
  pub wrap_send :
      Readings
      → Config
      → IntegrationConfig
      → SessionConfig
      → Request
      → (Dict String → Exec X Response)
      → Exec (Program X) Response
  wrap_send at global config cfg request func p =
      if p.tracing.tracer.enabled
      then with_span at request_args (in_request_span at global config cfg request func) p
      else on_rest (func request.headers) p
