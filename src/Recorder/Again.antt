-- ===== src/Recorder/Again.antt =====
-- oteltrace/span.py: what `finish` does to the spans themselves, also when it is called again.
use opentelemetry_auto_instr.Common.{
  ℕ, ◌+◌, ◌≡◌, ◌≢◌, arith, refl, ◌∙◌, ap, ◌==◌, ==_self, true, false, Option, none, some,
  Bool-cases, inl, inr, if◌then◌else◌, Result, ok, raised, continue,
}
use opentelemetry_auto_instr.World.{Context, World, Env, on_span, on_context}
use opentelemetry_auto_instr.World.Keeps.{identity}
use opentelemetry_auto_instr.Context.{set_current_span, close_span, get, Taken}
use opentelemetry_auto_instr.Context.Consistent.{Consistent}
use opentelemetry_auto_instr.Context.Closing.{close_span-Consistent}
use opentelemetry_auto_instr.Context.Left.{HandedOver}
use opentelemetry_auto_instr.Context.Taking.{get-HandedOver}
use opentelemetry_auto_instr.Recorder.{
  write_taken, record_trace, mark_finished, close_and_record, finish,
}
use opentelemetry_auto_instr.Recorder.Invariant.{write_taken-Keeps}
use opentelemetry_auto_instr.Recorder.Complete.{finish_open}

-- Taking and writing a trace keeps every span but for its tags, metrics, error and decision.
identity-record_trace :
    (env : Env) (c : ℕ) (w : World) (q : ℕ)
    → Consistent w
    → identity ((record_trace env c w).1.spans q) ≡ identity (w.spans q)
unfolding record_trace
identity-record_trace env c w q h = after (get c w).0 (get c w).1 (get-HandedOver c w h).0
  where
    after :
        (res : Result Taken) (w' : World)
        → HandedOver c w (res, w')
        → identity ((continue res (write_taken env) w').1.spans q) ≡ identity (w.spans q)
    after (ok none) w' e = ap (λ v. identity (v.spans q)) e.0
    after (ok (some (taken, sampled))) w' e =
        (write_taken-Keeps env (some (taken, sampled)) w').spans q ∙ ap identity (e.spans q)
    after (raised e) w' k = ap (λ v. identity (v.spans q)) k.0

current-record_trace :
    (env : Env) (c : ℕ) (w : World)
    → Consistent w
    → ((record_trace env c w).1.contexts c).current_span ≡ (w.contexts c).current_span
unfolding record_trace
current-record_trace env c w h = after (get c w).0 (get c w).1 (get-HandedOver c w h).0
  where
    after :
        (res : Result Taken) (w' : World)
        → HandedOver c w (res, w')
        → ((continue res (write_taken env) w').1.contexts c).current_span
          ≡ (w.contexts c).current_span
    after (ok none) w' e = ap (λ v. (v.contexts c).current_span) e.0
    after (ok (some (taken, sampled))) w' e =
        ap (λ x. x.current_span) ((write_taken-Keeps env (some (taken, sampled)) w').contexts c)
        ∙ e.current
    after (raised e) w' k = ap (λ v. (v.contexts c).current_span) k.0

current-set_current_span :
    (w : World) (o : Option ℕ) (context : Context) → (set_current_span w o context).current_span ≡ o
unfolding set_current_span
current-set_current_span w none context = refl
current-set_current_span w (some p) context = refl

current-close_span :
    (c r : ℕ) (w : World) → ((close_span c r w).contexts c).current_span ≡ (w.spans r).parent
unfolding close_span on_context
current-close_span c r w = simp ==_self (
    current-set_current_span w (w.spans r).parent
      (record (w.contexts c) { finished_spans = (w.contexts c).finished_spans + 1 }))

spans-close_span : (c r : ℕ) (w : World) (q : ℕ) → (close_span c r w).spans q ≡ w.spans q
unfolding close_span on_context
spans-close_span c r w q = refl

finish_done :
    (env : Env) (finish_time : Option ℕ) (r : ℕ) (w : World)
    → (w.spans r).finished ≡ true
    → finish env finish_time r w ≡ w
unfolding finish
finish_done env finish_time r w done = simp done refl

module _ (env : Env) (finish_time : Option ℕ) (r : ℕ) (w : World) (h : Consistent w) where
  identity-close_and_record :
      (w.spans r).finished ≡ false
      → (o : Option ℕ) → (w.spans r).context ≡ o
      → (q : ℕ)
      → identity ((close_and_record env r o (on_span r (mark_finished env finish_time) w)).spans q)
        ≡ identity ((on_span r (mark_finished env finish_time) w).spans q)
  unfolding close_and_record mark_finished
  identity-close_and_record open_r none own q = refl
  identity-close_and_record open_r (some c) own q =
      let marked = on_span r (mark_finished env finish_time) w in
      elim (Bool-cases (marked.spans r).has_tracer) [
        | inl traced ↦ simp traced (
            identity-record_trace env c (close_span c r marked) q
              (close_span-Consistent r (mark_finished env finish_time) w h open_r refl refl c own)
            ∙ ap identity (spans-close_span c r marked q))
        | inr untraced ↦ simp untraced (ap identity (spans-close_span c r marked q))
      ]

  -- Finishing an unfinished span, with contexts and spans that agree, marks it as finished and sets
  -- its duration if it has none, and leaves every span otherwise as it was, but for its tags, metrics,
  -- error and decision.
  pub finish_marks :
      (w.spans r).finished ≡ false
      → (q : ℕ)
      → identity ((finish env finish_time r w).spans q)
        ≡ identity (if r == q then mark_finished env finish_time (w.spans r) else w.spans q)
  unfolding on_span
  finish_marks open_r q =
      ap (λ v. identity (v.spans q)) (finish_open env finish_time r w open_r)
      ∙ identity-close_and_record open_r (w.spans r).context refl q

  -- Finishing a span, with contexts and spans that agree, leaves every other span as it was, but for
  -- its tags, metrics, error and decision.
  pub finish_others :
      (q : ℕ) → r ≢ q → identity ((finish env finish_time r w).spans q) ≡ identity (w.spans q)
  finish_others q other = elim (Bool-cases (w.spans r).finished) [
    | inl done ↦ ap (λ v. identity (v.spans q)) (finish_done env finish_time r w done)
    | inr open_r ↦
        let differ : (r == q) ≡ false = ground (arith, other) in
        let apart : (if r == q then mark_finished env finish_time (w.spans r) else w.spans q)
            ≡ w.spans q =
          simp differ refl in
        finish_marks open_r q ∙ ap identity apart
  ]

  current-close_and_record :
      (w.spans r).finished ≡ false
      → (c : ℕ) → (w.spans r).context ≡ some c
      → ((close_and_record env r (some c) (on_span r (mark_finished env finish_time) w)).contexts
          c).current_span
        ≡ ((on_span r (mark_finished env finish_time) w).spans r).parent
  unfolding close_and_record mark_finished
  current-close_and_record open_r c own =
      let marked = on_span r (mark_finished env finish_time) w in
      elim (Bool-cases (marked.spans r).has_tracer) [
        | inl traced ↦ simp traced (
            current-record_trace env c (close_span c r marked)
              (close_span-Consistent r (mark_finished env finish_time) w h open_r refl refl c own)
            ∙ current-close_span c r marked)
        | inr untraced ↦ simp untraced (current-close_span c r marked)
      ]

  parent_marked :
      ((on_span r (mark_finished env finish_time) w).spans r).parent ≡ (w.spans r).parent
  unfolding on_span mark_finished
  parent_marked = simp ==_self refl

  -- Finishing an unfinished span, with contexts and spans that agree, makes its parent the current
  -- span of its context, or no span if it has no local parent.
  pub finish_restores :
      (c : ℕ)
      → (w.spans r).finished ≡ false
      → (w.spans r).context ≡ some c
      → ((finish env finish_time r w).contexts c).current_span ≡ (w.spans r).parent
  finish_restores c open_r own =
      ap (λ v. (v.contexts c).current_span) (finish_open env finish_time r w open_r)
      ∙ ap
          (λ o.
            ((close_and_record env r o (on_span r (mark_finished env finish_time) w)).contexts
              c).current_span)
          own
      ∙ current-close_and_record open_r c own
      ∙ parent_marked

  pub finished-finish : ((finish env finish_time r w).spans r).finished ≡ true
  unfolding mark_finished
  finished-finish = elim (Bool-cases (w.spans r).finished) [
    | inl done ↦ ap (λ v. (v.spans r).finished) (finish_done env finish_time r w done) ∙ done
    | inr open_r ↦ ap (λ i. i.finished) (finish_marks open_r r) ∙ simp ==_self refl
  ]

  -- Finishing a span a second time changes nothing, from contexts and spans that agree, whatever the
  -- two times and readings are.
  pub finish_twice :
      (env' : Env) (finish_time' : Option ℕ)
      → finish env' finish_time' r (finish env finish_time r w) ≡ finish env finish_time r w
  finish_twice env' finish_time' =
      finish_done env' finish_time' r (finish env finish_time r w) finished-finish
