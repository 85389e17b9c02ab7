-- ===== src/Propagation/B3/RoundTrip.antt =====
-- oteltrace/propagation/b3.py: `extract` reads back the ids that `inject` wrote.
use opentelemetry_auto_instr.Common.{
  ℕ, zero, suc, ◌≡◌, refl, sym, ◌∙◌, ap, ℤ, pos, negsuc, Bool, true, false, ◌||◌, Option, none,
  some, String, Dict, insert, lookup, lookup-insert, str_eq, eq_iff, arith, ok, if◌then◌else◌,
  Bool-cases, inl, inr,
}
use opentelemetry_auto_instr.Value.{auto_keep, auto_reject}
use opentelemetry_auto_instr.World.{Context}
use opentelemetry_auto_instr.Context.{new_context}
use opentelemetry_auto_instr.Propagation.{codes, skip_spaces}
use opentelemetry_auto_instr.Propagation.B3.{
  format_hex, parse_hex, sampled_of, inject, given_or, propagates, of_headers, extract,
}
use opentelemetry_auto_instr.Propagation.B3.Hex.{parse_hex-format_hex}

-- A priority that is kept: AUTO_KEEP or USER_KEEP.
abbrev pub is_kept : Option ℤ → Bool
is_kept (some (pos (suc zero))) = true
is_kept (some (pos (suc (suc zero)))) = true
is_kept none = false
is_kept (some (pos zero)) = false
is_kept (some (pos (suc (suc (suc n))))) = false
is_kept (some (negsuc n)) = false

-- No priority, or one of the four of the map.
abbrev pub is_known : Option ℤ → Bool
is_known none = true
is_known (some (pos zero)) = true
is_known (some (pos (suc zero))) = true
is_known (some (pos (suc (suc zero)))) = true
is_known (some (pos (suc (suc (suc n))))) = false
is_known (some (negsuc zero)) = true
is_known (some (negsuc (suc n))) = false

sampled_of-known :
    (p : Option ℤ) → is_known p ≡ true → sampled_of p ≡ ok (if is_kept p then "1" else "0")
sampled_of-known none h = refl
sampled_of-known (some (pos zero)) h = refl
sampled_of-known (some (pos (suc zero))) h = refl
sampled_of-known (some (pos (suc (suc zero)))) h = refl
sampled_of-known (some (pos (suc (suc (suc n))))) h = absurd (ground (arith, h))
sampled_of-known (some (negsuc zero)) h = refl
sampled_of-known (some (negsuc (suc n))) h = absurd (ground (arith, h))

propagates_text : (b : Bool) → propagates (codes (given_or (some (if b then "1" else "0")) "0")) ≡ b
propagates_text true = refl
propagates_text false = refl

or_false : (b : Bool) → (b || false) ≡ b
or_false true = refl
or_false false = refl

empty_parse : parse_hex (codes "") ≡ none
unfolding parse_hex skip_spaces
empty_parse = refl

-- A text that can be parsed is not empty, so `or` does not replace it.
given_or-parsed :
    (s : String) (n : ℤ)
    → parse_hex (codes s) ≡ some n
    → parse_hex (codes (given_or (some s) "0")) ≡ some n
given_or-parsed s n e = elim (Bool-cases (str_eq s "")) [
  | inl empty ↦ absurd (
      let f : Option.none ≡ some n =
        sym empty_parse ∙ sym (ap (λ t. parse_hex (codes t)) ((eq_iff s "").0 empty)) ∙ e in
      ground (arith, f))
  | inr given ↦ simp given e
]

-- what the headers hold after `inject`
abbrev written : Bool → ℕ → ℕ → Dict String → Dict String
written keeps trace_id span_id headers = insert "x-b3-sampled" (if keeps then "1" else "0") (
    insert "x-b3-spanid" (format_hex 16 (pos span_id))
      (insert "x-b3-traceid" (format_hex 32 (pos trace_id)) headers))

module _ (headers : Dict String) (keeps : Bool) (trace_id span_id : ℕ)
    (no_single : lookup "b3" headers ≡ none) (no_flags : lookup "x-b3-flags" headers ≡ none) where
  looked_up :
      (lookup "b3" (written keeps trace_id span_id headers) ≡ none)
      × (lookup "x-b3-traceid" (written keeps trace_id span_id headers)
          ≡ some (format_hex 32 (pos trace_id)))
      × (lookup "x-b3-spanid" (written keeps trace_id span_id headers)
          ≡ some (format_hex 16 (pos span_id)))
      × (lookup "x-b3-sampled" (written keeps trace_id span_id headers)
          ≡ some (if keeps then "1" else "0"))
      × (lookup "x-b3-flags" (written keeps trace_id span_id headers) ≡ none)
  looked_up = (
    simp lookup-insert no_single,
    simp lookup-insert refl,
    simp lookup-insert refl,
    simp lookup-insert refl,
    simp lookup-insert no_flags,
  )

  extract-written :
      extract (written keeps trace_id span_id headers)
      ≡ ok (
          new_context
            (some (pos trace_id))
            (some (pos span_id))
            (some (if keeps then auto_keep else auto_reject))
            none)
  unfolding extract of_headers
  extract-written =
      rw
        (
          looked_up.0,
          looked_up.1,
          looked_up.2,
          looked_up.3,
          looked_up.4,
          given_or-parsed (format_hex 32 (pos trace_id)) (pos trace_id)
              (parse_hex-format_hex 32 trace_id),
          given_or-parsed (format_hex 16 (pos span_id)) (pos span_id)
              (parse_hex-format_hex 16 span_id),
          propagates_text keeps,
        )
        (ap
          (λ b. ok (
            new_context (some (pos trace_id)) (some (pos span_id))
              (some (if b then auto_keep else auto_reject)) none))
          (or_false keeps))

-- A context with ids that are not negative, and with no priority or one of the four that b3 has a
-- state for, is injected without raising into headers that have no single b3 header and no flags; and
-- it is extracted again with its trace id and its span id, and with AUTO_KEEP as its priority if it
-- was AUTO_KEEP or USER_KEEP, and AUTO_REJECT if not.
pub extract-inject_b3 :
    (context : Context) (trace_id span_id : ℕ) (headers : Dict String)
    → context.parent_trace_id ≡ some (pos trace_id)
    → context.parent_span_id ≡ some (pos span_id)
    → is_known context.sampling_priority ≡ true
    → lookup "b3" headers ≡ none
    → lookup "x-b3-flags" headers ≡ none
    → ((inject context headers).0 ≡ ok tt)
      × (extract (inject context headers).1
          ≡ ok (
              new_context
                (some (pos trace_id))
                (some (pos span_id))
                (some (if is_kept context.sampling_priority then auto_keep else auto_reject))
                none))
unfolding inject
extract-inject_b3 context trace_id span_id headers traced spanned known no_single no_flags =
    rw (sampled_of-known context.sampling_priority known, traced, spanned)
      (
        refl,
        extract-written headers (is_kept context.sampling_priority) trace_id span_id no_single
            no_flags,
      )
