-- ===== src/Filters.antt =====
-- oteltrace/filters.py: `FilterRequestsOnUrl`, as a filter of the trace writer. A compiled regular
-- expression is the test that its `match` makes of a text.
pub mod Urls
mod Tests
use opentelemetry_auto_instr.Common.{
  Bool, true, false, Option, none, some, String, List, [], ◌∷◌, Result, ok, any_of, if◌then◌else◌,
}
use opentelemetry_auto_instr.World.{Span}
use opentelemetry_auto_instr.Span.{get_tag}
use opentelemetry_auto_instr.Writer.{Filter}

-- `ext.http.URL`
abbrev pub url_key : String
url_key = "http.url"

abbrev pub Regexps : Type 0
Regexps = List (String → Bool)

-- The loop over the regular expressions: whether one of them returns from `process_trace`.
pub matches_one : Regexps → String → Bool
matches_one [] url = false
matches_one (regexp ∷ regexps) url =
    let rest = matches_one regexps url in if regexp url then true else rest

abbrev pub tag_matches : Regexps → Option String → Bool
tag_matches regexps none = false
tag_matches regexps (some url) = matches_one regexps url

-- Whether the loop body returns at this span.
pub stops_at : Regexps → Span → Bool
unfolding matches_one get_tag
stops_at regexps span = elim span.parent_id [
  | none ↦ tag_matches regexps (get_tag url_key span)
  | some parent_id ↦ false
]

-- The loop over the spans.
pub survives : Regexps → List Span → Bool
unfolding stops_at
survives regexps [] = true
survives regexps (span ∷ spans) =
    let rest = survives regexps spans in if stops_at regexps span then false else rest

-- `process_trace`
pub process_trace : Regexps → Filter Span
unfolding survives
process_trace regexps trace = ok (if survives regexps trace then some trace else none)
