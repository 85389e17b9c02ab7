-- ===== src/Context/Whole.antt =====
-- oteltrace/context.py: `get` on a finished trace, and on the tracer.
use opentelemetry_auto_instr.Common.{
  ℕ, ◌≡◌, ◌≢◌, refl, ◌∙◌, ap, ◌==◌, ==_self, not, ◌&&◌, some, [], length, keep, leb, Bool-cases,
  inl, inr, Result, ok, raised, continue,
}
use opentelemetry_auto_instr.World.{Context, World, on_context}
use opentelemetry_auto_instr.Context.{
  is_finished, is_sampled, tag_root, reset, Taken, take_all, take_finished, get,
}
use opentelemetry_auto_instr.Context.Left.{give_up}
use opentelemetry_auto_instr.Context.Root.{tag_root-Tagged, tag_root_ok}

-- A context whose spans are all counted as finished, and which has one, returns its whole trace.
pub get_complete :
    (c : ℕ) (w : World)
    → (w.contexts c).trace ≢ []
    → (w.contexts c).finished_spans ≡ length (w.contexts c).trace
    → (get c w).0 ≡ ok (some ((w.contexts c).trace, is_sampled w (w.contexts c).trace))
unfolding get take_all
get_complete c w ne full =
    simp
      (
        full,
        ==_self,
        tag_root_ok (w.contexts c).trace (is_sampled w (w.contexts c).trace) (w.contexts c) w ne,
      )
      refl

tracer-give_up :
    (c : ℕ) (f : World → Context → Context) (taken : Taken) (res : Result Unit) (w : World)
    → (continue res (λ _. give_up c f taken) w).1.tracer ≡ w.tracer
unfolding on_context
tracer-give_up c f taken (ok u) w = refl
tracer-give_up c f taken (raised e) w = refl

tracer-tag_root :
    (c : ℕ) (w : World)
    → (tag_root (w.contexts c).trace (is_sampled w (w.contexts c).trace) (w.contexts c) w).1.tracer
      ≡ w.tracer
tracer-tag_root c w = ap (λ o. o.tracer) (tag_root-Tagged (w.contexts c).trace _ _ w).rest

tracer-take_all : (c : ℕ) (w : World) → (take_all c w).1.tracer ≡ w.tracer
unfolding take_all
tracer-take_all c w =
    let sampled = is_sampled w (w.contexts c).trace in
    tracer-give_up c (λ w'. reset) _ (tag_root (w.contexts c).trace sampled (w.contexts c) w).0
      (tag_root (w.contexts c).trace sampled (w.contexts c) w).1
    ∙ tracer-tag_root c w

tracer-take_finished : (c : ℕ) (w : World) → (take_finished c w).1.tracer ≡ w.tracer
unfolding take_finished
tracer-take_finished c w =
    let sampled = is_sampled w (w.contexts c).trace in
    tracer-give_up c
      (λ w' context. record context {
        finished_spans = 0;
        trace = keep (λ r. not (is_finished w' r)) context.trace;
      })
      _ (tag_root (w.contexts c).trace sampled (w.contexts c) w).0
      (tag_root (w.contexts c).trace sampled (w.contexts c) w).1
    ∙ tracer-tag_root c w

-- `get` leaves the tracer alone.
pub tracer-get : (c : ℕ) (w : World) → (get c w).1.tracer ≡ w.tracer
unfolding get
tracer-get c w = elim (Bool-cases ((w.contexts c).finished_spans == length (w.contexts c).trace)) [
  | inl full ↦ simp full (tracer-take_all c w)
  | inr partial ↦
      simp partial
        (elim (Bool-cases (
          w.settings.partial_flush_enabled
          && leb w.settings.partial_flush_min_spans
              (length (keep (is_finished w) (w.contexts c).trace)))) [
                | inl flush ↦ simp flush (tracer-take_finished c w)
                | inr wait ↦ simp wait refl
              ])
]
