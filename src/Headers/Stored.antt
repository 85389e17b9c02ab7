-- ===== src/Headers/Stored.antt =====
-- oteltrace/http/headers.py: which tags are stored for the headers of a request or a response.
use Prim.Native.String.{◌++◌}
use mathlib.Core.Path.{subst}
use opentelemetry_auto_instr.Common.{
  ℕ, ◌≡◌, refl, sym, false, some, String, [], ◌∷◌, Dict, arith, Bool-cases, inl, inr, Exec, ◌>>◌,
  Result, ok, raised, continue, if◌then◌else◌,
}
use opentelemetry_auto_instr.Value.{Value}
use opentelemetry_auto_instr.World.{World}
use opentelemetry_auto_instr.Span.{set_tag, set_tags}
use opentelemetry_auto_instr.Span.Plain.{Plain, Settled, set_tags-Settled}
use opentelemetry_auto_instr.Span.Tags.{is_manual}
use opentelemetry_auto_instr.Config.{Config, IntegrationConfig, integration_traces}
use opentelemetry_auto_instr.Text.{other_start, lower, strip}
use opentelemetry_auto_instr.Headers.{
  normalize_tag_name, replace_chars, store_each, store_headers, store_request_headers,
  store_response_headers,
}

-- The name of a header's tag chooses no sampling priority.
plain_tag_name :
    (request_or_response header_name : String)
    → is_manual (normalize_tag_name request_or_response header_name) ≡ false
unfolding normalize_tag_name
plain_tag_name request_or_response header_name =
    let rest = request_or_response ++ (".headers." ++ replace_chars (lower (strip header_name))) in
    simp
      (
        other_start "h" "m" "ttp." "anual.keep" rest (λ e. omega arith),
        other_start "h" "m" "ttp." "anual.drop" rest (λ e. omega arith),
      )
      refl

-- The tags of the traced headers, in their order.
pub traced_tags : Config → IntegrationConfig → String → Dict Value → Dict Value
traced_tags global config request_or_response [] = []
traced_tags global config request_or_response ((header_name, header_value) ∷ headers) =
    let rest = traced_tags global config request_or_response headers in
    if integration_traces global config (some header_name)
    then (normalize_tag_name request_or_response header_name, header_value) ∷ rest
    else rest

traced_tags-Plain :
    (global : Config) (config : IntegrationConfig) (kind : String) (headers : Dict Value)
    → Plain (traced_tags global config kind headers)
unfolding traced_tags
traced_tags-Plain global config kind [] = tt
traced_tags-Plain global config kind ((name, value) ∷ headers) =
    elim (Bool-cases (integration_traces global config (some name))) [
      | inl traced ↦
          simp traced (plain_tag_name kind name, traced_tags-Plain global config kind headers)
      | inr other ↦ simp other (traced_tags-Plain global config kind headers)
    ]

after_same :
    (m f g : Exec World Unit) (w : World) → ((w' : World) → f w' ≡ g w') → (m >> f) w ≡ (m >> g) w
after_same m f g w h = same (m w).0 (m w).1
  where
    same : (r : Result (Unit {0})) (w' : World) → continue r (λ _. f) w' ≡ continue r (λ _. g) w'
    same (ok u) w' = h w'
    same (raised e) w' = refl

store_each-set_tags :
    (global : Config) (config : IntegrationConfig) (r : ℕ) (kind : String) (headers : Dict Value)
    (w : World)
    → store_each global config r kind headers w
      ≡ set_tags r (traced_tags global config kind headers) w
unfolding store_each set_tags traced_tags
store_each-set_tags global config r kind [] w = refl
store_each-set_tags global config r kind ((name, value) ∷ headers) w =
    elim (Bool-cases (integration_traces global config (some name))) [
      | inl traced ↦ simp traced (
          after_same (set_tag r (normalize_tag_name kind name) value) _ _ w
            (store_each-set_tags global config r kind headers))
      | inr other ↦ simp other (store_each-set_tags global config r kind headers w)
    ]

-- The headers of a request or a response are stored without raising: what is done is to set, in their
-- order, the tags of exactly the headers that the integration traces. The names, services, ids, times,
-- parents, contexts and sampling decisions of all spans, and the traces of the contexts, stay as they
-- were.
pub store_headers-Settled :
    (global : Config) (config : IntegrationConfig) (r : ℕ) (kind : String) (headers : Dict Value)
    (w : World)
    → (store_headers global (some config) r kind (some headers) w
        ≡ set_tags r (traced_tags global config kind headers) w)
      × Settled (store_headers global (some config) r kind (some headers) w) w
unfolding store_headers
store_headers-Settled global config r kind headers w =
    let e = store_each-set_tags global config r kind headers w in
    let h =
      set_tags-Settled r (traced_tags global config kind headers) w
        (traced_tags-Plain global config kind headers) in
    (e, subst (λ x. Settled x w) (sym e) h)

-- Neither kind of headers makes the storing raise.
pub store_request_headers_returns :
    (global : Config) (config : IntegrationConfig) (r : ℕ) (headers : Dict Value) (w : World)
    → (store_request_headers global (some config) r (some headers) w).0 ≡ ok tt
unfolding store_request_headers
store_request_headers_returns global config r headers w =
    (store_headers-Settled global config r "request" headers w).1.returns

pub store_response_headers_returns :
    (global : Config) (config : IntegrationConfig) (r : ℕ) (headers : Dict Value) (w : World)
    → (store_response_headers global (some config) r (some headers) w).0 ≡ ok tt
unfolding store_response_headers
store_response_headers_returns global config r headers w =
    (store_headers-Settled global config r "response" headers w).1.returns
