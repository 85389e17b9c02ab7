-- ===== src/Context/Consistent.antt =====
-- oteltrace/context.py: how the count of finished spans, the traces of the contexts and the spans'
-- own fields agree.
use mathlib.Core.Path.{subst}
use opentelemetry_auto_instr.Common.{
  ℕ, ◌≤◌, ◌<◌, ◌≡◌, sym, ◌∙◌, ap, true, false, none, some, [], length, keep, All, Bool-cases, inl,
  inr,
}
use opentelemetry_auto_instr.Common.Members.{occurs, Distinct, keep_ext, All-mono, All-occurs}
use opentelemetry_auto_instr.World.{World}
use opentelemetry_auto_instr.World.Keeps.{Keeps}
use opentelemetry_auto_instr.Context.{is_finished}

-- Every context counts the finished spans of its trace, which are its own and stand there once; an
-- unfinished span stands in the trace of its context; what is not allocated is not in use; and the
-- tracer's active context is allocated.
pub record Consistent (w : World) : Type 0 where
  pub counted :
      (c : ℕ) → (w.contexts c).finished_spans ≡ length (keep (is_finished w) (w.contexts c).trace)
  pub owned : (c : ℕ) → All (λ r. (w.spans r).context ≡ some c) (w.contexts c).trace
  pub listed :
      (r c : ℕ)
      → (w.spans r).finished ≡ false
      → (w.spans r).context ≡ some c
      → occurs r (w.contexts c).trace ≡ true
  pub distinct : (c : ℕ) → Distinct (w.contexts c).trace
  pub fresh_spans : (r : ℕ) → w.next_span ≤ r → (w.spans r).context ≡ none
  pub fresh_contexts : (r c : ℕ) → (w.spans r).context ≡ some c → c < w.next_context
  pub unused_contexts : (c : ℕ) → w.next_context ≤ c → (w.contexts c).trace ≡ []
  pub active_known : (c : ℕ) → w.tracer.active_context ≡ some c → c < w.next_context

-- Tags, metrics and sampling decisions keep the agreement.
pub Consistent-Keeps : (w w' : World) → Keeps w w' → Consistent w → Consistent w'
Consistent-Keeps w w' k h = record {
  counted = λ c.
      ap (λ f. f.finished_spans) (k.contexts c)
      ∙ h.counted c
      ∙ sym (
          ap (λ f. length (keep (is_finished w') f.trace)) (k.contexts c)
          ∙ ap length (
              keep_ext (is_finished w') (is_finished w) _ (λ r. ap (λ s. s.finished) (k.spans r))));
  owned = λ c.
      subst (All (λ r. (w'.spans r).context ≡ some c)) (sym (ap (λ f. f.trace) (k.contexts c))) (
        All-mono _ _ (w.contexts c).trace (λ r e. ap (λ s. s.context) (k.spans r) ∙ e) (h.owned c));
  listed = λ r c open_r own.
      ap (λ f. occurs r f.trace) (k.contexts c)
      ∙ h.listed r c (sym (ap (λ s. s.finished) (k.spans r)) ∙ open_r)
          (sym (ap (λ s. s.context) (k.spans r)) ∙ own);
  distinct = λ c. subst Distinct (sym (ap (λ f. f.trace) (k.contexts c))) (h.distinct c);
  fresh_spans = λ r le. ap (λ s. s.context) (k.spans r) ∙ h.fresh_spans r (rw k.next_span at le);
  fresh_contexts = λ r c own.
      rw k.next_context (h.fresh_contexts r c (sym (ap (λ s. s.context) (k.spans r)) ∙ own));
  unused_contexts =
      λ c le. ap (λ f. f.trace) (k.contexts c) ∙ h.unused_contexts c (rw k.next_context at le);
  active_known = λ c e. rw k.next_context (h.active_known c (sym k.rest ∙ e));
}

pub occurs_nowhere :
    (w : World) (h : Consistent w) (r d : ℕ)
    → (w.spans r).context ≡ none
    → occurs r (w.contexts d).trace ≡ false
occurs_nowhere w h r d lone = elim (Bool-cases (occurs r (w.contexts d).trace)) [
  | inl found ↦ absurd (let own = All-occurs _ r (w.contexts d).trace (h.owned d) found in cc)
  | inr missing ↦ missing
]
