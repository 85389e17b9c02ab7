-- ===== src/Context/Closing.antt =====
-- oteltrace/context.py: `close_span` of a span that was just marked as finished keeps the contexts
-- and the spans in agreement.
use opentelemetry_auto_instr.Common.{
  ℕ, ◌+◌, ◌≡◌, refl, sym, ◌∙◌, ap, ◌==◌, ==_true, true, false, Option, none, some, length, keep,
  arith, Bool-cases, inl, inr, if◌then◌else◌,
}
use opentelemetry_auto_instr.Common.Members.{
  occurs, keep_ext, All-mono, All-occurs, also, keep-also_absent, length-keep-also,
}
use opentelemetry_auto_instr.World.{Span, Context, World, on_span, on_context}
use opentelemetry_auto_instr.World.Keeps.{update_keeps}
use opentelemetry_auto_instr.Context.{set_current_span, close_span, is_finished}
use opentelemetry_auto_instr.Context.Consistent.{Consistent, occurs_nowhere}

-- A span that is marked as finished, and closed in its context.
abbrev pub Marks : ℕ → Span → World → World → Type 0
Marks r span w w' =
    ((q : ℕ) → w'.spans q ≡ (if r == q then span else w.spans q))
    × ((d : ℕ) → (w'.contexts d).trace ≡ (w.contexts d).trace)
    × (w'.next_span ≡ w.next_span)
    × (w'.next_context ≡ w.next_context)
    × (w'.tracer ≡ w.tracer)

module _ (r : ℕ) (span : Span) (w w' : World) (h : Consistent w)
    (open_r : (w.spans r).finished ≡ false) (marked : span.finished ≡ true)
    (same_context : span.context ≡ (w.spans r).context) (m : Marks r span w w') where
  finished_marked : (q : ℕ) → is_finished w' q ≡ also r (is_finished w) q
  finished_marked q = ground (arith, m.0 q)

  context_marked : (q : ℕ) → (w'.spans q).context ≡ (w.spans q).context
  context_marked q = ground (arith, m.0 q, ==_true r q)

  count_marked :
      (d : ℕ)
      → length (keep (is_finished w') (w'.contexts d).trace) ≡ (
          if occurs r (w.contexts d).trace
          then (w.contexts d).finished_spans + 1
          else (w.contexts d).finished_spans)
  count_marked d =
      ap (λ t. length (keep (is_finished w') t)) (m.1 d)
      ∙ ap length (keep_ext _ _ (w.contexts d).trace finished_marked)
      ∙ elim (Bool-cases (occurs r (w.contexts d).trace)) [
        | inl found ↦ rw found (
            length-keep-also (is_finished w) r (w.contexts d).trace (h.distinct d) found open_r
            ∙ omega (arith, h.counted d))
        | inr missing ↦ rw missing (
            ap length (keep-also_absent (is_finished w) r (w.contexts d).trace missing)
            ∙ sym (h.counted d))
      ]

  -- what is left to show of a finished span: the counts
  pub marked-Consistent :
      ((d : ℕ)
        → (w'.contexts d).finished_spans ≡ (
            if occurs r (w.contexts d).trace
            then (w.contexts d).finished_spans + 1
            else (w.contexts d).finished_spans))
      → Consistent w'
  marked-Consistent counts = record {
    counted = λ d. counts d ∙ sym (count_marked d);
    owned = λ d.
        rw (m.1 d) (All-mono _ _ (w.contexts d).trace (λ q e. context_marked q ∙ e) (h.owned d));
    listed = λ q d open_q own.
        rw (m.1 d)
          (h.listed q d (ground (arith, finished_marked q)) (sym (context_marked q) ∙ own));
    distinct = λ d. rw (m.1 d) (h.distinct d);
    fresh_spans = λ q le. context_marked q ∙ h.fresh_spans q (rw m.2 at le);
    fresh_contexts = λ q d own. rw m.3 (h.fresh_contexts q d (sym (context_marked q) ∙ own));
    unused_contexts = λ d le. m.1 d ∙ h.unused_contexts d (rw m.3 at le);
    active_known = λ d e. rw m.3 (h.active_known d (sym (ap (λ t. t.active_context) m.4) ∙ e));
  }

trace-set_current_span :
    (w : World) (o : Option ℕ) (context : Context)
    → (set_current_span w o context).trace ≡ context.trace
unfolding set_current_span
trace-set_current_span w none context = refl
trace-set_current_span w (some r) context = refl

finished_spans-set_current_span :
    (w : World) (o : Option ℕ) (context : Context)
    → (set_current_span w o context).finished_spans ≡ context.finished_spans
unfolding set_current_span
finished_spans-set_current_span w none context = refl
finished_spans-set_current_span w (some r) context = refl

pub trace-close_span :
    (c r : ℕ) (w : World) (d : ℕ) → ((close_span c r w).contexts d).trace ≡ (w.contexts d).trace
unfolding close_span on_context
trace-close_span c r w d =
    update_keeps (λ x. x.trace) w.contexts c d _
      (trace-set_current_span w (w.spans r).parent
        (record (w.contexts c) { finished_spans = (w.contexts c).finished_spans + 1 }))

-- An unfinished span stands in the trace of its own context and in no other.
occurs_in_own :
    (w : World) (h : Consistent w) (r c d : ℕ)
    → (w.spans r).finished ≡ false
    → (w.spans r).context ≡ some c
    → occurs r (w.contexts d).trace ≡ (c == d)
occurs_in_own w h r c d open_r own = elim (Bool-cases (c == d)) [
  | inl same ↦ rw same (h.listed r d open_r (own ∙ ap some (==_true c d same)))
  | inr other ↦ rw other (elim (Bool-cases (occurs r (w.contexts d).trace)) [
    | inl found ↦
        let theirs = All-occurs _ r (w.contexts d).trace (h.owned d) found in ground (arith, theirs)
    | inr missing ↦ missing
  ])
]

-- `finish` on an unfinished span: it is marked, and its context, if it has one, counts it.
module _ (r : ℕ) (f : Span → Span) (w : World) (h : Consistent w)
    (open_r : (w.spans r).finished ≡ false) (marked : (f (w.spans r)).finished ≡ true)
    (same_context : (f (w.spans r)).context ≡ (w.spans r).context) where
  pub mark-Consistent : (w.spans r).context ≡ none → Consistent (on_span r f w)
  unfolding on_span
  mark-Consistent lone =
      marked-Consistent r (f (w.spans r)) w (on_span r f w) h open_r marked same_context
        ((λ q. refl), (λ d. refl), refl, refl, refl) (λ d. rw (occurs_nowhere w h r d lone) refl)

  count_closed :
      (c d : ℕ)
      → ((close_span c r (on_span r f w)).contexts d).finished_spans
        ≡ (if c == d then (w.contexts d).finished_spans + 1 else (w.contexts d).finished_spans)
  unfolding on_span close_span
  count_closed c d = elim (Bool-cases (c == d)) [
    | inl same ↦ rw same (
        finished_spans-set_current_span (on_span r f w) ((on_span r f w).spans r).parent
          (record (w.contexts c) { finished_spans = (w.contexts c).finished_spans + 1 })
        ∙ ap (λ e. (w.contexts e).finished_spans + 1) (==_true c d same))
    | inr other ↦ rw other refl
  ]

  pub close_span-Consistent :
      (c : ℕ) → (w.spans r).context ≡ some c → Consistent (close_span c r (on_span r f w))
  unfolding on_span close_span
  close_span-Consistent c own =
      marked-Consistent r (f (w.spans r)) w (close_span c r (on_span r f w)) h open_r marked
        same_context ((λ q. refl), trace-close_span c r (on_span r f w), refl, refl, refl)
        (λ d. rw (occurs_in_own w h r c d open_r own) (count_closed c d))
