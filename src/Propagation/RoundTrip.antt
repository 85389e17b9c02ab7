-- ===== src/Propagation/RoundTrip.antt =====
-- oteltrace/propagation/datadog.py: `extract` reads back the context that `inject` wrote.
use opentelemetry_auto_instr.Common.{
  ℤ, ◌≡◌, refl, ◌∙◌, ap, Bool, true, false, Option, none, some, String, [], ◌∷◌, Dict, insert,
  str_eq, eq_iff, arith, Bool-cases, inl, inr,
}
use opentelemetry_auto_instr.World.{Context}
use opentelemetry_auto_instr.Context.{new_context}
use opentelemetry_auto_instr.Propagation.{
  Names, trace_id_header, parent_id_header, sampling_priority_header, origin_header, trace_id_names,
  parent_id_names, sampling_priority_names, origin_names, same_header, is_named,
  extract_header_value, show_id, show_priority, insert_if, inject, int_header, priority_header,
  parsed_priority, context_of, extract,
}
use opentelemetry_auto_instr.Propagation.Digits.{parse_int-show}

-- A header with another name is not seen.
other-insert :
    (names : Names) (key value : String) (headers : Dict String)
    → is_named names key ≡ false
    → extract_header_value names (insert key value headers) ≡ extract_header_value names headers
unfolding extract_header_value insert
other-insert names key value [] other = simp other refl
other-insert names key value ((k, v) ∷ headers) other = elim (Bool-cases (str_eq k key)) [
  | inl same ↦ simp (same, ap (is_named names) ((eq_iff k key).0 same), other) refl
  | inr differ ↦ simp (differ, other-insert names key value headers other) refl
]

-- A header with the name is found, if there was none.
own-insert :
    (names : Names) (key value : String) (headers : Dict String)
    → is_named names key ≡ true
    → extract_header_value names headers ≡ none
    → extract_header_value names (insert key value headers) ≡ some value
unfolding extract_header_value insert
own-insert names key value [] own absent = simp own refl
own-insert names key value ((k, v) ∷ headers) own absent = elim (Bool-cases (str_eq k key)) [
  | inl same ↦ simp (same, ap (is_named names) ((eq_iff k key).0 same), own) refl
  | inr differ ↦ simp differ (ground (arith, absent, own-insert names key value headers own))
]

other-insert_if :
    (names : Names) (key : String) (value : Option String) (headers : Dict String)
    → is_named names key ≡ false
    → extract_header_value names (insert_if key value headers) ≡ extract_header_value names headers
other-insert_if names key none headers other = refl
other-insert_if names key (some value) headers other = other-insert names key value headers other

own-insert_if :
    (names : Names) (key : String) (value : Option String) (headers : Dict String)
    → is_named names key ≡ true
    → extract_header_value names headers ≡ none
    → extract_header_value names (insert_if key value headers) ≡ value
own-insert_if names key none headers own absent = absent
own-insert_if names key (some value) headers own absent =
    own-insert names key value headers own absent

-- What `extract` makes of headers with a trace id.
extract-named :
    (headers : Dict String) (value : String)
    → extract_header_value trace_id_names headers ≡ some value
    → extract headers
      ≡ context_of
          (int_header (extract_header_value trace_id_names headers))
          (int_header (extract_header_value parent_id_names headers))
          (priority_header (extract_header_value sampling_priority_names headers))
          (extract_header_value origin_names headers)
unfolding extract extract_header_value
extract-named [] value found =
    absurd (let e : Option.none ≡ some value = found in ground (arith, e))
extract-named (entry ∷ headers) value found = refl

priority_header-show :
    (priority : Option ℤ) → priority_header (show_priority priority) ≡ some priority
priority_header-show none = refl
priority_header-show (some n) = ap parsed_priority (parse_int-show n)

-- The headers that `inject` writes tell the four names apart.
record Apart (names : Names) (trace parent priority origin : Bool) : Type 0 where
  is_trace : is_named names trace_id_header ≡ trace
  is_parent : is_named names parent_id_header ≡ parent
  is_priority : is_named names sampling_priority_header ≡ priority
  is_origin : is_named names origin_header ≡ origin

Apart-names :
    Apart trace_id_names true false false false
    × Apart parent_id_names false true false false
    × Apart sampling_priority_names false false true false
    × Apart origin_names false false false true
unfolding is_named same_header
Apart-names = (
  record { is_trace = refl; is_parent = refl; is_priority = refl; is_origin = refl },
  record { is_trace = refl; is_parent = refl; is_priority = refl; is_origin = refl },
  record { is_trace = refl; is_parent = refl; is_priority = refl; is_origin = refl },
  record { is_trace = refl; is_parent = refl; is_priority = refl; is_origin = refl },
)

module _ (context : Context) (trace_id span_id : ℤ) (headers : Dict String)
    (traced : context.parent_trace_id ≡ some trace_id)
    (spanned : context.parent_span_id ≡ some span_id)
    (no_trace : extract_header_value trace_id_names headers ≡ none)
    (no_parent : extract_header_value parent_id_names headers ≡ none)
    (no_priority : extract_header_value sampling_priority_names headers ≡ none)
    (no_origin : extract_header_value origin_names headers ≡ none) where
  h₁ : Dict String
  h₁ = insert trace_id_header (show_id context.parent_trace_id) headers

  h₂ : Dict String
  h₂ = insert parent_id_header (show_id context.parent_span_id) h₁

  h₃ : Dict String
  h₃ = insert_if sampling_priority_header (show_priority context.sampling_priority) h₂

  trace_of :
      extract_header_value trace_id_names (inject context headers)
      ≡ some (show_id context.parent_trace_id)
  unfolding inject h₁ h₂ h₃
  trace_of =
      let a = Apart-names.0 in
      other-insert_if trace_id_names origin_header context.otel_origin h₃ a.is_origin
      ∙ other-insert_if trace_id_names sampling_priority_header
          (show_priority context.sampling_priority) h₂ a.is_priority
      ∙ other-insert trace_id_names parent_id_header (show_id context.parent_span_id) h₁ a.is_parent
      ∙ own-insert trace_id_names trace_id_header (show_id context.parent_trace_id) headers
          a.is_trace no_trace

  parent_of :
      extract_header_value parent_id_names (inject context headers)
      ≡ some (show_id context.parent_span_id)
  unfolding inject h₁ h₂ h₃
  parent_of =
      let a = Apart-names.1 in
      other-insert_if parent_id_names origin_header context.otel_origin h₃ a.is_origin
      ∙ other-insert_if parent_id_names sampling_priority_header
          (show_priority context.sampling_priority) h₂ a.is_priority
      ∙ own-insert parent_id_names parent_id_header (show_id context.parent_span_id) h₁ a.is_parent
          (other-insert parent_id_names trace_id_header (show_id context.parent_trace_id) headers
              a.is_trace
            ∙ no_parent)

  -- a name that neither of the two ids has
  beyond_ids :
      (names : Names)
      → is_named names trace_id_header ≡ false
      → is_named names parent_id_header ≡ false
      → extract_header_value names h₂ ≡ extract_header_value names headers
  unfolding h₁ h₂
  beyond_ids names t p =
      other-insert names parent_id_header (show_id context.parent_span_id) h₁ p
      ∙ other-insert names trace_id_header (show_id context.parent_trace_id) headers t

  priority_of :
      extract_header_value sampling_priority_names (inject context headers)
      ≡ show_priority context.sampling_priority
  unfolding inject h₁ h₂ h₃
  priority_of =
      let a = Apart-names.2 in
      other-insert_if sampling_priority_names origin_header context.otel_origin h₃ a.is_origin
      ∙ own-insert_if sampling_priority_names sampling_priority_header
          (show_priority context.sampling_priority) h₂ a.is_priority
          (beyond_ids sampling_priority_names a.is_trace a.is_parent ∙ no_priority)

  origin_of : extract_header_value origin_names (inject context headers) ≡ context.otel_origin
  unfolding inject h₁ h₂ h₃
  origin_of =
      let a = Apart-names.3 in
      own-insert_if origin_names origin_header context.otel_origin h₃ a.is_origin (
        other-insert_if origin_names sampling_priority_header
          (show_priority context.sampling_priority) h₂ a.is_priority
        ∙ beyond_ids origin_names a.is_trace a.is_parent
        ∙ no_origin)

  -- A context with a trace id and a span id that is injected into headers with none of the tracing
  -- headers, under whatever case or WSGI name, is extracted again: with its trace id, its span id, its
  -- sampling priority and its origin.
  pub extract-inject :
      extract (inject context headers)
      ≡ new_context (some trace_id) (some span_id) context.sampling_priority context.otel_origin
  extract-inject =
      extract-named (inject context headers) (show_id context.parent_trace_id) trace_of
      ∙ rw
          (
            trace_of,
            parent_of,
            priority_of,
            origin_of,
            traced,
            spanned,
            parse_int-show trace_id,
            parse_int-show span_id,
            priority_header-show,
          )
          refl
