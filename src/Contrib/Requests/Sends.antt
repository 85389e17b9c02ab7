-- ===== src/Contrib/Requests/Sends.antt =====
-- oteltrace/contrib/requests/connection.py: what is sent, and what the program gets.
use opentelemetry_auto_instr.Common.{
  ℕ, ◌≡◌, refl, ap, ◌∙◌, true, Bool-cases, inl, inr, Option, none, some, Dict, String, Result, ok,
  raised, Exec, ◌>>=◌, ◌>>◌, if◌then◌else◌, pure,
}
use opentelemetry_auto_instr.Value.{Value, analytics_sample_rate_key}
use opentelemetry_auto_instr.World.{Span, Context, World, on_span, update_self}
use opentelemetry_auto_instr.Span.{set_tag, set_metric}
use opentelemetry_auto_instr.Span.Keeps.{identity-set_metric}
use opentelemetry_auto_instr.Recorder.{trace}
use opentelemetry_auto_instr.Propagation.{inject}
use opentelemetry_auto_instr.Config.{Config, IntegrationConfig}
use opentelemetry_auto_instr.Headers.{store_request_headers}
use opentelemetry_auto_instr.Headers.Stored.{
  store_request_headers_returns, store_response_headers_returns,
}
use opentelemetry_auto_instr.Traced.{Program, Readings, text_values}
use opentelemetry_auto_instr.Contrib.Passes.{Passes, in_span-Passes}
use opentelemetry_auto_instr.Contrib.Requests.{
  Request, Response, SessionConfig, host_of, named, inject_into, prepare, store_answer, answered,
  send, request_args, in_request_span, wrap_send, extract_service_name,
}

-- the headers that are sent for a span in a context
abbrev pub sent : SessionConfig → Context → Dict String → Dict String
sent cfg context headers = if cfg.distributed_tracing then inject context headers else headers

context-on_span :
    (r : ℕ) (f : Span → Span) (w : World)
    → ((x : Span) → (f x).context ≡ x.context)
    → ((on_span r f w).spans r).context ≡ (w.spans r).context
unfolding on_span
context-on_span r f w h =
    ap (λ x. x.context) (update_self w.spans r (f (w.spans r))) ∙ h (w.spans r)

module _ (at : Readings) (global : Config) (config : IntegrationConfig) (cfg : SessionConfig)
    (request : Request) where
  -- what is done once the span has its service and its rate
  abbrev rest_of : ℕ → Exec World (Dict String)
  rest_of r = do
    headers ← (λ w.
        if cfg.distributed_tracing
        then inject_into (w.spans r).context request.headers w
        else (ok request.headers, w))
    store_request_headers global (some config) r (some (text_values at.as_float headers))
    pure headers

  rest_of_returns :
      (r c : ℕ) (w : World)
      → (w.spans r).context ≡ some c
      → (rest_of r w).0 ≡ ok (sent cfg (w.contexts c) request.headers)
  rest_of_returns r c w own = elim (Bool-cases cfg.distributed_tracing) [
    | inl b ↦
        let headers = text_values at.as_float (inject (w.contexts c) request.headers) in
        rw (b, own, store_request_headers_returns global config r headers w) refl
    | inr b ↦
        let headers = text_values at.as_float request.headers in
        rw (b, store_request_headers_returns global config r headers w) refl
  ]

  prepare_returns :
      (r c : ℕ) (w : World)
      → (w.spans r).context ≡ some c
      → (prepare at global config cfg request r w).0 ≡ ok (sent cfg (w.contexts c) request.headers)
  unfolding prepare set_tag on_span extract_service_name
  prepare_returns r c w own =
      let hostname = host_of request.uri.hostname request.uri.port in
      let v = named cfg r hostname w in
      let serviced : Span → Span =
        λ span. record span { service = extract_service_name cfg r hostname w } in
      let own_v = context-on_span r serviced w (λ x. refl) ∙ own in
      let rated : Span → Span = set_metric analytics_sample_rate_key cfg.analytics_sample_rate in
      elim (Bool-cases cfg.analytics_enabled) [
        | inl b ↦ rw b (
            rest_of_returns r c (on_span r rated v) (
              context-on_span r rated v (λ x.
                ap (λ i. i.context)
                  (identity-set_metric analytics_sample_rate_key cfg.analytics_sample_rate x))
              ∙ own_v))
        | inr b ↦ rw b (rest_of_returns r c v own_v)
      ]

  store_answer_returns :
      (r : ℕ) (headers : Option (Dict Value)) (w : World)
      → (store_answer global config r headers w).0 ≡ ok tt
  store_answer_returns r none w = refl
  store_answer_returns r (some headers) w = store_response_headers_returns global config r headers w

  module _ {X : Type 0} where
    answered-Passes :
        (func : Exec X Response) (r : ℕ) (x : X) (p : Program X) (res : Result Response)
        → res ≡ (func x).0
        → p.rest ≡ (func x).1
        → Passes func x (answered global config r res p)
    answered-Passes func r x p (raised e) h k = record { result = h; rest = k }
    answered-Passes func r x p (ok response) h k =
        rw (store_answer_returns r response.headers p.tracing) (record { result = h; rest = k })

    send-Passes :
        (func : Exec X Response) (r : ℕ) (p : Program X)
        → Passes func p.rest (send at global config request r func p)
    unfolding send
    send-Passes func r p =
        let (res, x) = func p.rest in
        let k = answered-Passes func r p.rest (record p { rest = x }) res refl refl in
        record { result = k.result; rest = k.rest }

    -- `_wrap_send` with an enabled tracer that starts the span `r` in a context: what is sent are the
    -- request's headers, with those of the span's context if the session has distributed tracing; and
    -- the program gets the response that sending them gives, or the exception that it raises, with the
    -- rest of it as that leaves it.
    pub wrap_send-Sends :
        (func : Dict String → Exec X Response) (p : Program X) (r c : ℕ)
        → p.tracing.tracer.enabled ≡ true
        → let started = trace at.at_start request_args p.tracing in
          started.0 ≡ ok r
          → (started.1.spans r).context ≡ some c
          → Passes
              (func (sent cfg (started.1.contexts c) request.headers))
              p.rest
              (wrap_send at global config cfg request func p)
    unfolding wrap_send
    wrap_send-Sends func p r c on e own =
        let w = (trace at.at_start request_args p.tracing).1 in
        let k =
          send-Passes (func (sent cfg (w.contexts c) request.headers)) r
            (record p { tracing = (prepare at global config cfg request r w).1 }) in
        simp on (
          in_span-Passes (func (sent cfg (w.contexts c) request.headers)) at request_args
            (in_request_span at global config cfg request func) p r e
            (rw (prepare_returns r c w own) (record { result = k.result; rest = k.rest })))
