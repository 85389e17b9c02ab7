-- ===== src/Span/Tags.antt =====
-- oteltrace/span.py: what `set_tag`, `set_metric` and the error tags do.
use mathlib.Core.Path.{subst}
use opentelemetry_auto_instr.Common.{
  ℕ, ◌≡◌, refl, ◌||◌, ◌&&◌, Bool, Option, none, some, String, arith, lookup, lookup-insert,
  lookup-remove, contains, ok, raised, attribute_error, eq_iff, str_eq, if◌then◌else◌, not, is_some,
  Option-cases, Bool-cases, Dict, inl, inr,
}
use opentelemetry_auto_instr.Value.{
  Number, Value, to_float, is_real, analytics_sample_rate_key, manual_drop_key, manual_keep_key,
}
use opentelemetry_auto_instr.World.{Span, World}
use opentelemetry_auto_instr.Span.{
  set_metric, put_metric, with_metric, get_metric, get_tag, set_priority, set_tag, remove_tag,
  remove_exc_info, error_msg, error_type, error_stack,
}

-- What a metric is stored as: a finite number, or what `float` makes of the value if that is finite.
abbrev pub stored : Option Number → Option Number
stored none = none
stored (some n) = if is_real n then some n else none

abbrev pub or_kept : Option Number → Option Number → Option Number
or_kept none old = old
or_kept (some n) old = some n

lookup-with_metric :
    (key j : String) (o : Option Number) (span : Span)
    → lookup j (with_metric key o span).metrics
      ≡ (if str_eq key j then or_kept (stored o) (lookup j span.metrics) else lookup j span.metrics)
unfolding put_metric
lookup-with_metric key j none span = ground arith
lookup-with_metric key j (some n) span = ground (arith, lookup-insert key j n span.metrics)

-- After `set_metric`, a metric reads as the number stored for its key if there is one, and as before
-- if the value was refused or for another key; no NaN and no infinity is stored.
pub get_metric-set_metric :
    (key j : String) (value : Value) (span : Span)
    → get_metric j (set_metric key value span) ≡ (
        if str_eq key j
        then or_kept (stored (to_float value)) (get_metric j span)
        else get_metric j span)
unfolding get_metric set_metric
get_metric-set_metric key j value span = lookup-with_metric key j (to_float value) span

abbrev pub is_manual : String → Bool
is_manual key = str_eq key manual_keep_key || str_eq key manual_drop_key

numeric_tag_raises :
    (r : ℕ) (key : String) (value : Value) (w : World)
    → analytics_sample_rate_key ≡ key
    → (set_tag r key value w).0 ≡ (
        if is_manual key && not (is_some (w.spans r).context)
        then raised attribute_error
        else ok tt)
unfolding set_tag
numeric_tag_raises r key value w e =
    subst
      (λ k. (set_tag r k value w).0 ≡ (
        if is_manual k && not (is_some (w.spans r).context) then raised attribute_error else ok tt))
      e refl

-- Of all keys, the two that choose a sampling priority by hand alone can make `set_tag` raise, and
-- they do so exactly on a span with no context.
pub set_tag_raises :
    (r : ℕ) (key : String) (value : Value) (w : World)
    → (set_tag r key value w).0 ≡ (
        if is_manual key && not (is_some (w.spans r).context)
        then raised attribute_error
        else ok tt)
unfolding set_tag set_priority
set_tag_raises r key value w = elim (Bool-cases (str_eq analytics_sample_rate_key key)) [
  | inl numeric ↦
      numeric_tag_raises r key value w ((eq_iff analytics_sample_rate_key key).0 numeric)
  | inr plain ↦ ground arith
]

-- The tags and the error flag of a span.
tags_of : Span → ℕ × (String → Option String)
tags_of span = (span.error, λ j. get_tag j span)

abbrev pub is_error_tag : String → Bool
is_error_tag j = str_eq error_stack j || str_eq error_type j || str_eq error_msg j

missing_at :
    {key j : String} (meta : Dict String) → key ≡ j → lookup key meta ≡ none → lookup j meta ≡ none
missing_at meta e missing = subst (λ k. lookup k meta ≡ none) e missing

error-remove_tag : (key : String) (span : Span) → (remove_tag key span).error ≡ span.error
unfolding remove_tag
error-remove_tag key span = ground arith

get_tag-remove_tag :
    (key j : String) (span : Span)
    → get_tag j (remove_tag key span) ≡ (if str_eq key j then none else get_tag j span)
unfolding get_tag remove_tag contains
get_tag-remove_tag key j span = elim (Option-cases (lookup key span.meta)) [
  | inl missing ↦ ground (arith, eq_iff key j, λ (e : key ≡ j). missing_at span.meta e missing)
  | inr (v, found) ↦ ground (arith, lookup-remove key j span.meta)
]

-- Once the error tags are removed, a span has no error and none of them, and its other tags as before.
pub get_tag-remove_exc_info :
    (j : String) (span : Span)
    → (get_tag j (remove_exc_info span) ≡ (if is_error_tag j then none else get_tag j span))
      × ((remove_exc_info span).error ≡ 0)
unfolding remove_exc_info
get_tag-remove_exc_info j span =
    (simp get_tag-remove_tag (unfold get_tag in ground arith), simp error-remove_tag)
