-- ===== src/Filters/Urls.antt =====
-- oteltrace/filters.py with oteltrace/internal/writer.py: which traces are sent.
use opentelemetry_auto_instr.Common.{
  ℤ, ◌≡◌, refl, ap, ◌∙◌, Bool, true, false, not, ◌&&◌, Option, none, some, String, List, [], ◌∷◌,
  ok, any_of, keep, arith, if◌then◌else◌, Bool-cases, inl, inr,
}
use opentelemetry_auto_instr.World.{Span}
use opentelemetry_auto_instr.Span.{get_tag}
use opentelemetry_auto_instr.Writer.Filtered.{filter_one, filter_all-collect, filter_all-nil}
use opentelemetry_auto_instr.Writer.{collect, filter_all}
use opentelemetry_auto_instr.Filters.{
  url_key, Regexps, matches_one, tag_matches, stops_at, survives, process_trace,
}

abbrev pub is_root : Span → Bool
is_root span = elim span.parent_id [ none ↦ true | some parent_id ↦ false ]

abbrev pub url_matches : Regexps → Option String → Bool
url_matches regexps none = false
url_matches regexps (some url) = any_of (λ regexp. regexp url) regexps

-- A root span with a URL that one of the regular expressions matches.
abbrev pub is_excluded : Regexps → Span → Bool
is_excluded regexps span = is_root span && url_matches regexps (get_tag url_key span)

any_of-matches_one :
    (regexps : Regexps) (url : String)
    → matches_one regexps url ≡ any_of (λ regexp. regexp url) regexps
unfolding matches_one
any_of-matches_one [] url = refl
any_of-matches_one (regexp ∷ regexps) url = ground (arith, any_of-matches_one regexps url)

tag-url_matches :
    (regexps : Regexps) (o : Option String) → tag_matches regexps o ≡ url_matches regexps o
tag-url_matches regexps none = refl
tag-url_matches regexps (some url) = any_of-matches_one regexps url

stops_at-is_excluded :
    (regexps : Regexps) (span : Span) → stops_at regexps span ≡ is_excluded regexps span
unfolding stops_at
stops_at-is_excluded regexps span = by_parent span.parent_id
  where
    by_parent :
        (o : Option ℤ)
        → (elim o [ none ↦ tag_matches regexps (get_tag url_key span) | some p ↦ false ]) ≡ (
            (elim o [ none ↦ true | some p ↦ false ]) && url_matches regexps (get_tag url_key span))
    by_parent none = tag-url_matches regexps (get_tag url_key span)
    by_parent (some p) = refl

survives-any_of :
    (regexps : Regexps) (trace : List Span)
    → survives regexps trace ≡ not (any_of (is_excluded regexps) trace)
unfolding survives
survives-any_of regexps [] = refl
survives-any_of regexps (span ∷ spans) = elim (Bool-cases (is_excluded regexps span)) [
  | inl out ↦ simp (stops_at-is_excluded regexps span, out) refl
  | inr stays ↦ simp (stops_at-is_excluded regexps span, stays) (survives-any_of regexps spans)
]

-- With this filter alone, the writer sends exactly the traces that have no root span whose http.url
-- tag one of the regular expressions matches, as they are and in their order.
pub filter_all-process_trace :
    (regexps : Regexps) (traces : List (List Span))
    → filter_all (process_trace regexps ∷ []) traces
      ≡ ok (keep (λ trace. not (any_of (is_excluded regexps) trace)) traces)
unfolding process_trace
filter_all-process_trace regexps [] = filter_all-nil (process_trace regexps ∷ [])
filter_all-process_trace regexps (trace ∷ traces) =
    let filters = process_trace regexps ∷ [] in
    let e = survives-any_of regexps trace in
    filter_all-collect filters trace traces _ (filter_one (process_trace regexps) trace _ refl)
    ∙ ap (collect (if survives regexps trace then some trace else none))
        (filter_all-process_trace regexps traces)
    ∙ elim (Bool-cases (any_of (is_excluded regexps) trace)) [
      | inl out ↦ simp (e, out) refl
      | inr stays ↦ simp (e, stays) refl
    ]
