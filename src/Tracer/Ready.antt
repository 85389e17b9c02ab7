-- ===== src/Tracer/Ready.antt =====
-- oteltrace/tracer.py: new contexts and spans agree with the ones there are.
use opentelemetry_auto_instr.Common.{
  ℕ, ◌<◌, ◌≡◌, ◌∙◌, ap, ◌==◌, ==_true, ==_self, false, none, [], arith, Bool-cases, inl, inr,
  length,
}
use opentelemetry_auto_instr.Common.Members.{keep_ext_on, All-mono}
use opentelemetry_auto_instr.World.{Span, Context, World}
use opentelemetry_auto_instr.World.Keeps.{Keeps}
use opentelemetry_auto_instr.Context.{is_finished}
use opentelemetry_auto_instr.Context.Consistent.{Consistent, Consistent-Keeps}
use opentelemetry_auto_instr.Tracer.{alloc_context, alloc_span}

-- A new context has an empty trace, and counts nothing.
pub alloc_context-Consistent :
    (context : Context) (w : World)
    → context.trace ≡ []
    → context.finished_spans ≡ 0
    → Consistent w
    → Consistent (alloc_context context w).1
unfolding alloc_context
alloc_context-Consistent context w empty zero_count h = record {
  counted = λ c. ground (arith, h.counted c);
  owned = λ c. elim (Bool-cases (w.next_context == c)) [
    | inl same ↦ simp (same, empty) tt
    | inr other ↦ simp other (h.owned c)
  ];
  listed = λ r c open_r own. ground (arith, h.listed r c open_r own, h.fresh_contexts r c own);
  distinct = λ c. elim (Bool-cases (w.next_context == c)) [
    | inl same ↦ simp (same, empty) tt
    | inr other ↦ simp other (h.distinct c)
  ];
  fresh_spans = h.fresh_spans;
  fresh_contexts = λ r c own. omega (arith, h.fresh_contexts r c own);
  unused_contexts = λ c le. ground (arith, h.unused_contexts c);
  active_known = λ c e. omega (arith, h.active_known c e);
}

-- A span that is not yet in the trace of its context-to-be.
pub record Ready (c r : ℕ) (w : World) : Type 0 where
  pub consistent : Consistent w
  pub lone : (w.spans r).context ≡ none
  pub unfinished : (w.spans r).finished ≡ false
  pub allocated : r < w.next_span
  pub known : c < w.next_context

pub Ready-Keeps : (c r : ℕ) (w w' : World) → Keeps w w' → Ready c r w → Ready c r w'
Ready-Keeps c r w w' k h = record {
  consistent = Consistent-Keeps w w' k h.consistent;
  lone = ap (λ s. s.context) (k.spans r) ∙ h.lone;
  unfinished = ap (λ s. s.finished) (k.spans r) ∙ h.unfinished;
  allocated = rw k.next_span h.allocated;
  known = rw k.next_context h.known;
}

-- A new span has no context, and stands in no trace.
pub alloc_span-Ready :
    (c : ℕ) (span : Span) (w : World)
    → Consistent w
    → c < w.next_context
    → span.context ≡ none
    → span.finished ≡ false
    → Ready c w.next_span (alloc_span span w).1
unfolding alloc_span
alloc_span-Ready c span w h known lone open_span = record {
  consistent = record {
    counted = λ d.
        h.counted d
        ∙ ap length (
            keep_ext_on (is_finished w) (is_finished (alloc_span span w).1) (w.contexts d).trace (
              All-mono _ _ (w.contexts d).trace
                (λ q own. ground (arith, own, h.fresh_spans w.next_span, ==_true w.next_span q))
                (h.owned d)));
    owned = λ d.
        All-mono _ _ (w.contexts d).trace (λ q own. ground (arith, own, h.fresh_spans w.next_span))
          (h.owned d);
    listed = λ r d open_r own. ground (arith, h.listed r d);
    distinct = h.distinct;
    fresh_spans = λ r le. ground (arith, h.fresh_spans r);
    fresh_contexts = λ r d own. ground (arith, h.fresh_contexts r d);
    unused_contexts = h.unused_contexts;
    active_known = h.active_known;
  };
  lone = simp ==_self lone;
  unfinished = simp ==_self open_span;
  allocated = omega arith;
  known = known;
}
