-- ===== src/Context/Left.antt =====
-- oteltrace/context.py: what `get` may leave of a context, and that it is in agreement.
use mathlib.Core.Path.{subst}
use opentelemetry_auto_instr.Common.{
  ℕ, ◌≡◌, ◌≢◌, refl, sym, ◌∙◌, ap, ◌==◌, ==_true, Bool, true, false, not, ◌&&◌, none, some, List,
  [], ◌∷◌, length, keep, All, leb, Bool-cases, inl, inr, ◌⊎◌, Result, ok, raised, pure, modify,
  Exec, ◌>>◌,
}
use opentelemetry_auto_instr.Common.Members.{Distinct-keep, All-keep_of, occurs-keep, keep-keep-not}
use opentelemetry_auto_instr.World.{Context, World, on_context}
use opentelemetry_auto_instr.Span.Keeps.{untagged}
use opentelemetry_auto_instr.Context.{is_finished, is_sampled, Taken}
use opentelemetry_auto_instr.Context.Consistent.{Consistent}

-- A context that gives up its finished spans.
pub flush-Consistent :
    (c : ℕ) (f : Context → Context) (w : World)
    → Consistent w
    → (f (w.contexts c)).trace ≡ keep (λ r. not (is_finished w r)) (w.contexts c).trace
    → (f (w.contexts c)).finished_spans ≡ 0
    → Consistent (on_context c f w)
unfolding on_context
flush-Consistent c f w h left count = record {
  counted = λ d. elim (Bool-cases (c == d)) [
    | inl same ↦ simp (same, count, left, keep-keep-not (is_finished w) (w.contexts c).trace) refl
    | inr other ↦ simp other (h.counted d)
  ];
  owned = λ d. elim (Bool-cases (c == d)) [
    | inl same ↦
        simp (same, left)
          (All-keep_of _ _ (w.contexts c).trace (
            subst (λ e. All (λ r. (w.spans r).context ≡ some e) (w.contexts c).trace)
              (==_true c d same) (h.owned c)))
    | inr other ↦ simp other (h.owned d)
  ];
  listed = λ r d open_r own. elim (Bool-cases (c == d)) [
    | inl same ↦
        simp (same, left)
          (occurs-keep (λ q. not (is_finished w q)) r (w.contexts c).trace (ap not open_r)
            ∙ h.listed r c open_r (own ∙ ap some (sym (==_true c d same))))
    | inr other ↦ simp other (h.listed r d open_r own)
  ];
  distinct = λ d. elim (Bool-cases (c == d)) [
    | inl same ↦ simp (same, left) (Distinct-keep _ (w.contexts c).trace (h.distinct c))
    | inr other ↦ simp other (h.distinct d)
  ];
  fresh_spans = h.fresh_spans;
  fresh_contexts = h.fresh_contexts;
  active_known = h.active_known;
  unused_contexts = λ d le. elim (Bool-cases (c == d)) [
    | inl same ↦
        simp (same, left)
          (ap (keep (λ r. not (is_finished w r)))
            (ap (λ e. (w.contexts e).trace) (==_true c d same) ∙ h.unused_contexts d le))
    | inr other ↦ simp other (h.unused_contexts d le)
  ];
}

-- The unfinished spans of the trace of c.
abbrev pub open_spans : ℕ → World → List ℕ
open_spans c w = keep (λ r. not (is_finished w r)) (w.contexts c).trace

abbrev pub finished_spans : ℕ → World → List ℕ
finished_spans c w = keep (is_finished w) (w.contexts c).trace

-- Whether a trace with unfinished spans is to be flushed.
abbrev pub flushes : ℕ → World → Bool
flushes c w =
    w.settings.partial_flush_enabled
    && leb w.settings.partial_flush_min_spans (length (finished_spans c w))

-- What is left of a context, by the spans that are left of its trace.
abbrev pub remains : List ℕ → Context → Context
remains [] context = record {
  trace = [];
  finished_spans = 0;
  current_span = context.current_span;
  parent_trace_id = none;
  parent_span_id = none;
  sampling_priority = none;
  otel_origin = context.otel_origin;
}
remains (r ∷ rs) context = record context { trace = r ∷ rs; finished_spans = 0 }

pub remains-open :
    (rs : List ℕ) (context : Context)
    → rs ≢ []
    → record context { trace = rs; finished_spans = 0 } ≡ remains rs context
remains-open [] context ne = absurd (ne refl)
remains-open (r ∷ rs) context ne = refl

-- What `get` hands over of the trace of c, and what it leaves.
pub record HandsOver (c : ℕ) (w : World) (taken : List ℕ) (sampled : Bool) (w' : World)
    : Type 0 where
  pub finished : taken ≡ finished_spans c w
  pub decided : sampled ≡ is_sampled w (w.contexts c).trace
  pub left : (w'.contexts c).trace ≡ open_spans c w
  pub remaining : w'.contexts c ≡ remains (open_spans c w) (w.contexts c)
  pub enough : (open_spans c w ≡ []) ⊎ (flushes c w ≡ true)
  pub current : (w'.contexts c).current_span ≡ (w.contexts c).current_span
  pub others : (d : ℕ) → c ≢ d → w'.contexts d ≡ w.contexts d
  pub spans : (r : ℕ) → untagged (w'.spans r) ≡ untagged (w.spans r)

-- What `get` leaves, by its outcome: it waits for unfinished spans, hands over, or raises for a trace
-- without spans.
abbrev pub HandedOver : ℕ → World → Result Taken × World → Type 0
HandedOver c w (ok none, w') = (w' ≡ w) × (open_spans c w ≢ []) × (flushes c w ≡ false)
HandedOver c w (ok (some (taken, sampled)), w') = HandsOver c w taken sampled w'
HandedOver c w (raised e, w') = (w' ≡ w) × ((w.contexts c).trace ≡ [])

-- the end of either `get`, once the root is tagged
abbrev pub give_up : ℕ → (World → Context → Context) → Taken → Exec World Taken
give_up c f taken = do modify (λ w. on_context c (f w) w); pure taken
