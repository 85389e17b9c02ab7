-- ===== src/Recorder/Complete.antt =====
-- oteltrace/span.py, context.py and tracer.py: what finishing a span hands to the writer.
use mathlib.Core.Path.{subst}
use opentelemetry_auto_instr.Recorder.Invariant.{write_taken-Keeps}
use opentelemetry_auto_instr.Common.{
  ℕ, ◌≡◌, ◌≢◌, refl, sym, ◌∙◌, ap, ==_true, ==_self, Bool, true, false, Option, some, List, [], ◌∷◌,
  length, keep, any_of, All, arith, if◌then◌else◌, continue,
}
use opentelemetry_auto_instr.Common.Members.{also, occurs, All-mono, keep-All, keep_none}
use opentelemetry_auto_instr.Writer.{AgentWriter, write}
use opentelemetry_auto_instr.World.{World, Env, on_span, on_context}
use opentelemetry_auto_instr.Context.{close_span, is_finished, is_sampled, get}
use opentelemetry_auto_instr.Context.Consistent.{Consistent}
use opentelemetry_auto_instr.Context.Closing.{close_span-Consistent, trace-close_span}
use opentelemetry_auto_instr.Context.Left.{HandsOver, HandedOver}
use opentelemetry_auto_instr.Context.Taking.{get-HandedOver}
use opentelemetry_auto_instr.Context.Whole.{get_complete, tracer-get}
use opentelemetry_auto_instr.Recorder.{
  write_trace, write_taken, record_trace, mark_finished, close_and_record, finish,
}

any_of_ext : (p q : ℕ → Bool) (xs : List ℕ) → ((x : ℕ) → p x ≡ q x) → any_of p xs ≡ any_of q xs
any_of_ext p q [] h = refl
any_of_ext p q (x ∷ xs) h = rw (h x, any_of_ext p q xs h) refl

written :
    (env : Env) (rs : List ℕ) (sampled : Bool) (a : AgentWriter ℕ) (w : World)
    → rs ≢ []
    → w.tracer.enabled ≡ true
    → w.tracer.writer ≡ some a
    → (write_taken env (some (rs, sampled)) w).1.tracer.writer
      ≡ some (if sampled then write env.pid env.slot rs a else a)
unfolding write_trace
written env rs false a w ne on e = e
written env [] true a w ne on e = absurd (ne refl)
written env (r ∷ rs) true a w ne on e = simp (on, e) refl

recorded :
    (env : Env) (r c : ℕ) (w : World)
    → (w.spans r).has_tracer ≡ true
    → close_and_record env r (some c) w ≡ (record_trace env c (close_span c r w)).1
unfolding close_and_record
recorded env r c w traced = simp traced refl

pub finish_open :
    (env : Env) (finish_time : Option ℕ) (r : ℕ) (w : World)
    → (w.spans r).finished ≡ false
    → finish env finish_time r w
      ≡ close_and_record env r (w.spans r).context (on_span r (mark_finished env finish_time) w)
unfolding finish
finish_open env finish_time r w open_r = simp open_r refl

module _ (env : Env) (finish_time : Option ℕ) (r c : ℕ) (w : World) (a : AgentWriter ℕ)
    (h : Consistent w) (open_r : (w.spans r).finished ≡ false) (own : (w.spans r).context ≡ some c)
    (traced : (w.spans r).has_tracer ≡ true) (enabled : w.tracer.enabled ≡ true)
    (writer : w.tracer.writer ≡ some a) where
  -- the world that `record` is called in
  abbrev closed : World
  closed = close_span c r (on_span r (mark_finished env finish_time) w)

  closed-Consistent : Consistent closed
  unfolding mark_finished
  closed-Consistent =
      close_span-Consistent r (mark_finished env finish_time) w h open_r refl refl c own

  traced_marked : ((on_span r (mark_finished env finish_time) w).spans r).has_tracer ≡ true
  unfolding on_span mark_finished
  traced_marked = simp ==_self traced

  finished-closed : (q : ℕ) → is_finished closed q ≡ also r (is_finished w) q
  unfolding close_span on_span on_context mark_finished
  finished-closed q = ground arith

  sampled-closed : (q : ℕ) → (closed.spans q).sampled ≡ (w.spans q).sampled
  unfolding close_span on_span on_context mark_finished
  sampled-closed q = ground (arith, ==_true r q)

  finish-record_trace : finish env finish_time r w ≡ (record_trace env c closed).1
  finish-record_trace =
      finish_open env finish_time r w open_r
      ∙ ap (λ o. close_and_record env r o (on_span r (mark_finished env finish_time) w)) own
      ∙ recorded env r c (on_span r (mark_finished env finish_time) w) traced_marked

  tracer-closed : closed.tracer ≡ w.tracer
  unfolding close_span on_span on_context
  tracer-closed = refl

  trace_closed : (closed.contexts c).trace ≡ (w.contexts c).trace
  unfolding on_span
  trace_closed = trace-close_span c r (on_span r (mark_finished env finish_time) w) c

  -- every other span of the trace is finished
  module _ (others : All (λ q. also r (is_finished w) q ≡ true) (w.contexts c).trace) where
    all_counted : (closed.contexts c).finished_spans ≡ length (closed.contexts c).trace
    all_counted =
        closed-Consistent.counted c
        ∙ ap (λ t. length (keep (is_finished closed) t)) trace_closed
        ∙ ap length (
            keep-All (is_finished closed) (w.contexts c).trace
              (All-mono _ _ (w.contexts c).trace (λ q e. finished-closed q ∙ e) others))
        ∙ ap length (sym trace_closed)

    not_empty : (closed.contexts c).trace ≢ []
    not_empty e =
        let found = h.listed r c open_r own in
        let none_left : (w.contexts c).trace ≡ [] = sym trace_closed ∙ e in
        absurd (
          let gone : occurs r [] ≡ true = sym (ap (occurs r) none_left) ∙ found in
          ground (arith, gone))

    record_trace-closed :
        (record_trace env c closed).1.tracer.writer
        ≡ some (
            if is_sampled w (w.contexts c).trace
            then write env.pid env.slot (w.contexts c).trace a
            else a)
    unfolding record_trace is_sampled
    record_trace-closed =
        ap (λ x. (continue x (write_taken env) (get c closed).1).1.tracer.writer)
          (get_complete c closed not_empty all_counted)
        ∙ written env (closed.contexts c).trace (is_sampled closed (closed.contexts c).trace) a
            (get c closed).1 not_empty
            (ap (λ t. t.enabled) (tracer-get c closed ∙ tracer-closed) ∙ enabled)
            (ap (λ t. t.writer) (tracer-get c closed ∙ tracer-closed) ∙ writer)
        ∙ ap (λ t. some (if is_sampled closed t then write env.pid env.slot t a else a))
            trace_closed
        ∙ ap (λ b. some (if b then write env.pid env.slot (w.contexts c).trace a else a))
            (any_of_ext _ _ (w.contexts c).trace sampled-closed)

    emptied : ((record_trace env c closed).1.contexts c).trace ≡ []
    unfolding record_trace
    emptied =
        let all = (closed.contexts c).trace in
        let complete = get_complete c closed not_empty all_counted in
        let handed : HandsOver c closed all (is_sampled closed all) (get c closed).1 =
          subst (λ x. HandedOver c closed (x, (get c closed).1)) complete
            (get-HandedOver c closed closed-Consistent).0 in
        ap (λ x. ((continue x (write_taken env) (get c closed).1).1.contexts c).trace) complete
        ∙ ap (λ x. x.trace)
            ((write_taken-Keeps env (some (all, is_sampled closed all)) (get c closed).1).contexts
              c)
        ∙ handed.left
        ∙ keep_none (is_finished closed) all (sym (closed-Consistent.counted c) ∙ all_counted)

    -- Finishing the last unfinished span of a trace, with contexts and spans that agree and an enabled
    -- tracer with a writer: if a span of the trace is sampled, the whole of it, in the order that its
    -- spans were started, is written to the writer, and otherwise the writer is as it was; and the
    -- trace of the context is empty afterwards.
    pub finish_last :
        ((finish env finish_time r w).tracer.writer
          ≡ some (
              if is_sampled w (w.contexts c).trace
              then write env.pid env.slot (w.contexts c).trace a
              else a))
        × (((finish env finish_time r w).contexts c).trace ≡ [])
    finish_last = (
      ap (λ v. v.tracer.writer) finish-record_trace ∙ record_trace-closed,
      ap (λ v. (v.contexts c).trace) finish-record_trace ∙ emptied,
    )
