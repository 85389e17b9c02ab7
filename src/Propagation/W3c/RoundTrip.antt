-- ===== src/Propagation/W3c/RoundTrip.antt =====
-- oteltrace/propagation/w3c.py: `extract` reads back what `inject` wrote.
use Prim.Native.Nat.{◌^◌}
use Prim.Native.String.{◌++◌}
use text.Mathlib.TextLemmas.{cons-append, cons≢nil}
use opentelemetry_auto_instr.Common.{
  ℕ, zero, suc, ◌<◌, ◌≤◌, ◌≡◌, refl, sym, ◌∙◌, ap, ℤ, pos, negsuc, nonzero, Bool, true, false,
  Option, none, some, String, [], All, length, Dict, insert, lookup, lookup-insert, str_eq, eq_iff,
  arith, ok, if◌then◌else◌, Bool-cases, inl, inr,
}
use opentelemetry_auto_instr.Value.{auto_keep, auto_reject}
use opentelemetry_auto_instr.Context.{new_context}
use opentelemetry_auto_instr.Propagation.B3.{format_hex}
use opentelemetry_auto_instr.Propagation.B3.Fields.{format_hex-IsField}
use opentelemetry_auto_instr.Propagation.B3.Hex.{parse_hex-format_hex}
use opentelemetry_auto_instr.Propagation.B3.RoundTrip.{is_kept, is_known}
use opentelemetry_auto_instr.Propagation.W3c.{
  StateContext, flag_of, traceparent, traceparent_header, tracestate_header, put_tracestate, inject,
  extract, of_parent, of_groups, match_traceparent, is_odd, context_of_ids, parse_tracestate,
  format_tracestate,
}
use opentelemetry_auto_instr.Propagation.W3c.Fields.{written, match_traceparent-written}
use opentelemetry_auto_instr.Propagation.W3c.Members.{IsMember}
use opentelemetry_auto_instr.Propagation.W3c.State.{Fresh, parse_tracestate-format}

abbrev flag : Bool → ℕ
flag keeps = if keeps then 1 else 0

flag_of-known : (p : Option ℤ) → is_known p ≡ true → flag_of p ≡ ok (flag (is_kept p))
flag_of-known none h = refl
flag_of-known (some (pos zero)) h = refl
flag_of-known (some (pos (suc zero))) h = refl
flag_of-known (some (pos (suc (suc zero)))) h = refl
flag_of-known (some (pos (suc (suc (suc n))))) h = absurd (ground (arith, h))
flag_of-known (some (negsuc zero)) h = refl
flag_of-known (some (negsuc (suc n))) h = absurd (ground (arith, h))

-- The tracestate of a context, if it has one, can be sent.
abbrev pub Sendable : Option (Dict String) → Type 0
Sendable none = Unit
Sendable (some state) = All IsMember state × Fresh [] state × (length state ≤ 32)

-- what another process has of it
abbrev pub received : Option (Dict String) → Dict String
received none = []
received (some state) = state

lookup-put_tracestate :
    (sent : Option (Dict String)) (headers : Dict String)
    → Sendable sent
    → lookup tracestate_header headers ≡ none
    → parse_tracestate (lookup tracestate_header (put_tracestate sent headers)) ≡ received sent
unfolding format_tracestate
lookup-put_tracestate none headers s h = unfold parse_tracestate in rw h refl
lookup-put_tracestate (some state) headers s h =
    ap parse_tracestate (simp lookup-insert refl) ∙ parse_tracestate-format state s.0 s.1 s.2

lookup_traceparent :
    (sent : Option (Dict String)) (parent : String) (headers : Dict String)
    → lookup traceparent_header (put_tracestate sent (insert traceparent_header parent headers))
      ≡ some parent
unfolding format_tracestate
lookup_traceparent none parent headers = simp lookup-insert refl
lookup_traceparent (some state) parent headers = simp lookup-insert refl

written_given : (t s o : String) → str_eq (written t s o) "" ≡ false
written_given t s o = elim (Bool-cases (str_eq (written t s o) "")) [
  | inl empty ↦ absurd (
      cons≢nil (
        sym (cons-append "0" "0-" (t ++ ("-" ++ (s ++ ("-" ++ o)))))
        ∙ (eq_iff (written t s o) "").0 empty))
  | inr given ↦ given
]

is_odd-flag : (keeps : Bool) → is_odd (pos (flag keeps)) ≡ keeps
is_odd-flag true = refl
is_odd-flag false = refl

flag_small : (keeps : Bool) → flag keeps < 16 ^ 2
flag_small true = omega arith
flag_small false = omega arith

-- The context that another process has.
abbrev pub arrived : ℕ → ℕ → Bool → Dict String → StateContext
arrived trace_id span_id keeps state = record {
  context =
      new_context (some (pos trace_id)) (some (pos span_id))
        (some (if keeps then auto_keep else auto_reject)) none;
  tracestate = some state;
}

ids-arrived :
    (trace_id span_id : ℕ) (keeps : Bool) (state : Dict String)
    → 0 < trace_id
    → 0 < span_id
    → context_of_ids (some (pos trace_id)) (some (pos span_id)) (some (pos (flag keeps))) state
      ≡ ok (arrived trace_id span_id keeps state)
unfolding context_of_ids
ids-arrived trace_id span_id keeps state ht hs =
    let traced : nonzero (pos trace_id) ≡ true = ground arith in
    let spanned : nonzero (pos span_id) ≡ true = ground arith in
    rw (traced, spanned, is_odd-flag keeps) refl

-- the header that `inject` writes
abbrev sent_parent : ℕ → ℕ → Bool → String
sent_parent trace_id span_id keeps =
    written (format_hex 32 (pos trace_id)) (format_hex 16 (pos span_id))
      (format_hex 2 (pos (flag keeps)))

of_groups-sent :
    (trace_id span_id : ℕ) (keeps : Bool) (state : Option String)
    → 0 < trace_id
    → trace_id < 16 ^ 32
    → 0 < span_id
    → span_id < 16 ^ 16
    → of_groups (match_traceparent (sent_parent trace_id span_id keeps)) state
      ≡ ok (arrived trace_id span_id keeps (parse_tracestate state))
unfolding of_groups
of_groups-sent trace_id span_id keeps state ht lt hs ls =
    rw
      (
        match_traceparent-written (format_hex 32 (pos trace_id)) (format_hex 16 (pos span_id))
            (format_hex 2 (pos (flag keeps))) (format_hex-IsField 31 trace_id lt)
            (format_hex-IsField 15 span_id ls)
            (format_hex-IsField 1 (flag keeps) (flag_small keeps)),
        parse_hex-format_hex 32 trace_id,
        parse_hex-format_hex 16 span_id,
        parse_hex-format_hex 2 (flag keeps),
      )
      (ids-arrived trace_id span_id keeps (parse_tracestate state) ht hs)

-- what the headers hold after `inject`
abbrev sent_headers : ℕ → ℕ → Bool → Option (Dict String) → Dict String → Dict String
sent_headers trace_id span_id keeps sent headers =
    put_tracestate sent (insert traceparent_header (sent_parent trace_id span_id keeps) headers)

extract-sent :
    (trace_id span_id : ℕ) (keeps : Bool) (sent : Option (Dict String)) (headers : Dict String)
    → 0 < trace_id
    → trace_id < 16 ^ 32
    → 0 < span_id
    → span_id < 16 ^ 16
    → Sendable sent
    → lookup tracestate_header headers ≡ none
    → extract (sent_headers trace_id span_id keeps sent headers)
      ≡ ok (arrived trace_id span_id keeps (received sent))
unfolding extract of_parent
extract-sent trace_id span_id keeps sent headers ht lt hs ls s new =
    let parent = sent_parent trace_id span_id keeps in
    let after = insert traceparent_header parent headers in
    let no_state : lookup tracestate_header after ≡ none = simp lookup-insert new in
    let given =
      written_given (format_hex 32 (pos trace_id)) (format_hex 16 (pos span_id))
        (format_hex 2 (pos (flag keeps))) in
    ap (λ p. of_parent p (lookup tracestate_header (put_tracestate sent after)))
      (lookup_traceparent sent parent headers)
    ∙ rw given (
        of_groups-sent trace_id span_id keeps (lookup tracestate_header (put_tracestate sent after))
          ht lt hs ls
        ∙ ap (λ state. ok (arrived trace_id span_id keeps state))
            (lookup-put_tracestate sent after s no_state))

-- A context with a trace id of at most 128 bits and a span id of at most 64 bits, neither of them 0,
-- with no priority or one of the four of the map, and with no state or one of at most 32 valid members
-- with different keys, is injected without raising into headers that have no tracestate. It is
-- extracted again with its ids and its state, empty if it had none, and with AUTO_KEEP as its priority
-- if it was AUTO_KEEP or USER_KEEP, and AUTO_REJECT if not.
pub extract-inject_w3c :
    (c : StateContext) (trace_id span_id : ℕ) (headers : Dict String)
    → c.context.parent_trace_id ≡ some (pos trace_id)
    → c.context.parent_span_id ≡ some (pos span_id)
    → 0 < trace_id
    → trace_id < 16 ^ 32
    → 0 < span_id
    → span_id < 16 ^ 16
    → is_known c.context.sampling_priority ≡ true
    → Sendable c.tracestate
    → lookup tracestate_header headers ≡ none
    → ((inject c headers).0 ≡ ok tt)
      × (extract (inject c headers).1
          ≡ ok (
              arrived trace_id span_id
                (is_kept c.context.sampling_priority)
                (received c.tracestate)))
unfolding inject traceparent
extract-inject_w3c c trace_id span_id headers traced spanned ht lt hs ls known s new =
    rw (flag_of-known c.context.sampling_priority known, traced, spanned)
      (
        refl,
        extract-sent trace_id span_id (is_kept c.context.sampling_priority) c.tracestate headers ht
            lt hs ls s new,
      )
