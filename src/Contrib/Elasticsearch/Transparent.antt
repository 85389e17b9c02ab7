-- ===== src/Contrib/Elasticsearch/Transparent.antt =====
-- oteltrace/contrib/elasticsearch/patch.py: when an instrumented client does what the client does.
use opentelemetry_auto_instr.Common.{
  ℕ, ◌≡◌, refl, Bool-cases, inl, inr, Option, none, some, String, [], ◌∷◌, Result, ok, raised, Exec,
  str_eq,
}
use opentelemetry_auto_instr.Value.{Value}
use opentelemetry_auto_instr.World.{World}
use opentelemetry_auto_instr.Span.{set_tag}
use opentelemetry_auto_instr.Pin.{Pin, get_from, service}
use opentelemetry_auto_instr.Traced.{Program, Readings, enabled_pin, enabled_of}
use opentelemetry_auto_instr.Contrib.Passes.{
  Passes, Startable, on_rest-Passes, with_span-Passes, on_tracing-Passes,
}
use opentelemetry_auto_instr.Contrib.Elasticsearch.{
  Search, Outcome, search_tags, tag_status, end_tags, perform, in_search_span, search_span,
  search_found, perform_request,
}

-- The request is well formed: it has a method and an address, parameters, and a body that can be dumped.
pub record Complete (search : Search) : Type 0 where
  pub method : String
  pub url : String
  pub params : String
  pub body : Value
  pub has_args : search.args ≡ method ∷ url ∷ []
  pub has_params : search.params ≡ some params
  pub has_body : search.body ≡ ok body

search_tags_returns :
    (at : Readings) (search : Search) (service : Option String) (r : ℕ) (w : World)
    → Complete search
    → (search_tags at search service r w).0 ≡ ok tt
unfolding search_tags set_tag
search_tags_returns at search service r w k = elim (Bool-cases search.trace_query_string) [
  | inl a ↦ elim (Bool-cases (str_eq k.method "GET")) [
    | inl b ↦ rw (k.has_args, k.has_params, k.has_body, a, b) refl
    | inr b ↦ rw (k.has_args, k.has_params, k.has_body, a, b) refl
  ]
  | inr a ↦ elim (Bool-cases (str_eq k.method "GET")) [
    | inl b ↦ rw (k.has_args, k.has_params, k.has_body, a, b) refl
    | inr b ↦ rw (k.has_args, k.has_params, k.has_body, a, b) refl
  ]
]

tag_status_returns : (r : ℕ) (o : Option Value) (w : World) → (tag_status r o w).0 ≡ ok tt
unfolding set_tag
tag_status_returns r none w = refl
tag_status_returns r (some status) w = refl

end_tags_returns :
    {A : Type 0} (outcome : Outcome A) (r : ℕ) (res : Result A) (w : World)
    → (end_tags outcome r res w).0 ≡ ok tt
end_tags_returns outcome r (ok result) w = tag_status_returns r (outcome.status result) _
end_tags_returns outcome r (raised e) w = tag_status_returns r (outcome.error_status e) w

module _ {X A : Type 0} (at : Readings) (search : Search) (outcome : Outcome A)
    (func : Exec X A) where
  perform-Passes : (r : ℕ) (p : Program X) → Passes func p.rest (perform outcome r func p)
  unfolding perform
  perform-Passes r p =
      rw (end_tags_returns outcome r (func p.rest).0 p.tracing)
        (record { result = refl; rest = refl })

  in_search_span-Passes :
      (service : Option String) (r : ℕ) (p : Program X)
      → Complete search
      → Passes func p.rest (in_search_span at search outcome service func r p)
  unfolding in_search_span
  in_search_span-Passes service r p e = elim (Bool-cases (p.tracing.spans r).sampled) [
    | inl b ↦ simp b (
        on_tracing-Passes func (search_tags at search service r) (perform outcome r func) p
          (search_tags_returns at search service r p.tracing e)
          (λ w. perform-Passes r (record p { tracing = w })))
    | inr b ↦ simp b (on_rest-Passes func p)
  ]

  search_found-Passes :
      (pin : Option Pin) (p : Program X)
      → Complete search
      → Startable at (λ q. search_span) p.tracing pin
      → Passes func p.rest (search_found at search outcome func pin p)
  search_found-Passes none p given t = on_rest-Passes func p
  search_found-Passes (some pin) p given (r, e) =
      with_span-Passes func at search_span
        (in_search_span at search outcome (service p.pins pin) func) p r e
        (λ w. in_search_span-Passes (service p.pins pin) r (record p { tracing = w }) given)

  -- A request with a method and an address as its two arguments, with parameters other than None and
  -- with a body that can be dumped, of an instrumented client that has no enabled pin, or whose tracer
  -- starts the span: it returns what the client's function returns, or raises what that raises, and
  -- leaves the rest of the program as that does, sampled or not.
  pub perform_request-Passes :
      (p : Program X)
      → let found = get_from search.transport p.pins in
        Complete search
        → Startable at (λ q. search_span) p.tracing (enabled_of p.tracing.tracer.enabled found)
        → Passes func p.rest (perform_request at search outcome func p)
  unfolding enabled_pin perform_request
  perform_request-Passes p given t =
      let found = get_from search.transport p.pins in
      search_found-Passes (enabled_of p.tracing.tracer.enabled found) (record p { pins = found.1 })
        given t
