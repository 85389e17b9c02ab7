-- ===== src/Context/Adding.antt =====
-- oteltrace/context.py: `add_span` keeps the contexts and the spans in agreement.
use mathlib.Core.Path.{subst}
use opentelemetry_auto_instr.Common.{
  ℕ, ◌<◌, ◌≡◌, refl, sym, ◌∙◌, ap, ◌==◌, ==_true, true, false, none, some, List, [], ◌∷◌, ◌++◌,
  length, length-append, keep, All, All-append, arith, Bool-cases, inl, inr, if◌then◌else◌,
}
use opentelemetry_auto_instr.Common.Members.{
  occurs, Distinct, keep_ext, keep-append, occurs-append, Distinct-append_one,
}
use opentelemetry_auto_instr.World.{World}
use opentelemetry_auto_instr.Context.{add_span, is_finished}
use opentelemetry_auto_instr.Context.Consistent.{Consistent, occurs_nowhere}

-- A span with no context yet is added to a context.
module _ (c r : ℕ) (w : World) (h : Consistent w) (lone : (w.spans r).context ≡ none)
    (open_r : (w.spans r).finished ≡ false) (allocated : r < w.next_span)
    (known : c < w.next_context) where
  absent : (d : ℕ) → occurs r (w.contexts d).trace ≡ false
  absent d = occurs_nowhere w h r d lone

  finished-add_span : (q : ℕ) → is_finished (add_span c r w) q ≡ is_finished w q
  unfolding add_span
  finished-add_span q = ground arith

  context-add_span :
      (q : ℕ)
      → ((add_span c r w).spans q).context ≡ (if r == q then some c else (w.spans q).context)
  unfolding add_span
  context-add_span q = ground arith

  trace-add_span :
      (d : ℕ)
      → ((add_span c r w).contexts d).trace
        ≡ (if c == d then (w.contexts c).trace ++ r ∷ [] else (w.contexts d).trace)
  unfolding add_span
  trace-add_span d = ground arith

  finished_spans-add_span :
      (d : ℕ) → ((add_span c r w).contexts d).finished_spans ≡ (w.contexts d).finished_spans
  unfolding add_span
  finished_spans-add_span d = ground arith

  next_span-add_span : (add_span c r w).next_span ≡ w.next_span
  unfolding add_span
  next_span-add_span = refl

  next_context-add_span : (add_span c r w).next_context ≡ w.next_context
  unfolding add_span
  next_context-add_span = refl

  active_add_span :
      (d : ℕ) → (add_span c r w).tracer.active_context ≡ some d → d < (add_span c r w).next_context
  unfolding add_span
  active_add_span = h.active_known

  -- the trace of d, by whether it is the context that r was added to
  counted_at :
      (d : ℕ)
      → length (keep (is_finished w) ((add_span c r w).contexts d).trace)
        ≡ length (keep (is_finished w) (w.contexts d).trace)
  counted_at d = elim (Bool-cases (c == d)) [
    | inl same ↦
        rw (trace-add_span d, same, keep-append)
          (ground (
            arith,
            length-append (keep (is_finished w) (w.contexts c).trace)
                (keep (is_finished w) (r ∷ [])),
            ==_true c d same,
          ))
    | inr other ↦ rw (trace-add_span d, other) refl
  ]

  keeps_owner :
      (d : ℕ) (xs : List ℕ)
      → occurs r xs ≡ false
      → All (λ q. (w.spans q).context ≡ some d) xs
      → All (λ q. ((add_span c r w).spans q).context ≡ some d) xs
  keeps_owner d [] gone own = tt
  keeps_owner d (x ∷ xs) gone own =
      (ground (arith, context-add_span x, own.0), keeps_owner d xs (ground arith) own.1)

  owned_at :
      (d : ℕ)
      → All (λ q. ((add_span c r w).spans q).context ≡ some d) ((add_span c r w).contexts d).trace
  owned_at d = elim (Bool-cases (c == d)) [
    | inl same ↦
        rw (trace-add_span d, same)
          (All-append _ (w.contexts c).trace (r ∷ [])
            (subst
              (λ e. All (λ q. ((add_span c r w).spans q).context ≡ some e) (w.contexts c).trace)
              (==_true c d same) (keeps_owner c (w.contexts c).trace (absent c) (h.owned c)))
            (ground (arith, context-add_span r, ==_true c d same), tt))
    | inr other ↦
        rw (trace-add_span d, other) (keeps_owner d (w.contexts d).trace (absent d) (h.owned d))
  ]

  listed_at :
      (q d : ℕ)
      → (w.spans q).finished ≡ false
      → ((add_span c r w).spans q).context ≡ some d
      → occurs q ((add_span c r w).contexts d).trace ≡ true
  listed_at q d open_q own = ground (
    arith,
    trace-add_span d,
    context-add_span q,
    h.listed q d open_q,
    occurs-append q (w.contexts c).trace (r ∷ []),
    ==_true c d,
  )

  Distinct-at : (d : ℕ) → Distinct ((add_span c r w).contexts d).trace
  Distinct-at d = elim (Bool-cases (c == d)) [
    | inl same ↦
        rw (trace-add_span d, same)
          (Distinct-append_one (w.contexts c).trace r (h.distinct c) (absent c))
    | inr other ↦ rw (trace-add_span d, other) (h.distinct d)
  ]

  pub add_span-Consistent : Consistent (add_span c r w)
  add_span-Consistent = record {
    counted = λ d.
        finished_spans-add_span d
        ∙ h.counted d
        ∙ sym (ap length (keep_ext _ _ _ finished-add_span) ∙ counted_at d);
    owned = owned_at;
    listed = λ q d open_q own. listed_at q d (sym (finished-add_span q) ∙ open_q) own;
    distinct = Distinct-at;
    fresh_spans = λ q le.
        ground (arith, next_span-add_span, context-add_span q, h.fresh_spans q, ==_true r q);
    fresh_contexts =
        λ q d own. ground (arith, next_context-add_span, context-add_span q, h.fresh_contexts q d);
    unused_contexts = λ d le.
        ground (arith, next_context-add_span, trace-add_span d, h.unused_contexts d, ==_true c d);
    active_known = active_add_span;
  }
