-- ===== src/Tracer/Keeps.antt =====
-- oteltrace/tracer.py: `start_span` keeps the contexts and the spans in agreement, also where it raises.
use opentelemetry_auto_instr.Common.{
  ℕ, ◌<◌, ℤ, ◌≡◌, refl, ◌∙◌, ap, ==_self, Bool, true, false, Option, none, some, String, arith,
  Bool-cases, inl, inr, Result, ok, raised, Exec, continue, pure, modify, is_some,
}
use opentelemetry_auto_instr.Value.{text, sample_rate_metric_key, auto_reject}
use opentelemetry_auto_instr.Sampler.{Sampler, all_traces, rated, by_service, otel}
use opentelemetry_auto_instr.World.{Tracer, World, Env, on_span}
use opentelemetry_auto_instr.World.Keeps.{
  Keeps, Keeps-refl, Keeps-trans, on_span-Keeps, on_context-Keeps, on_tracer-Keeps, Kept, Kept-pure,
  Kept-if, Kept-modify, Kept-bind,
}
use opentelemetry_auto_instr.Span.{new_span, set_metric, set_tag, set_tags}
use opentelemetry_auto_instr.Span.Keeps.{identity-set_metric, set_tag-Kept, set_tags-Kept}
use opentelemetry_auto_instr.Context.{empty_context, add_span}
use opentelemetry_auto_instr.Context.Consistent.{Consistent, Consistent-Keeps}
use opentelemetry_auto_instr.Context.Adding.{add_span-Consistent}
use opentelemetry_auto_instr.Sampling.{sample, service_sample, rate_value}
use opentelemetry_auto_instr.Sampling.Keeps.{Kept-SampledBy, sample-Kept, service_sample-Kept}
use opentelemetry_auto_instr.Tracer.Ready.{
  alloc_context-Consistent, Ready, Ready-Keeps, alloc_span-Ready,
}
use opentelemetry_auto_instr.Tracer.{
  alloc_context, alloc_span, ChildOf, of_nothing, of_span, of_context, StartArgs, resolve, lineage,
  truthy_id, joining_span, root_span, context_priority, auto_priority, prioritize, reject,
  apply_decision, sample_root, create, tag_pid, pid_tag, start_in, start_at, start_span,
  note_service, noted, check_new_process,
}

-- What holds after an action: P of its result if it returns, and agreement if it raises.
module _ {A : Type 0} where
  abbrev pub Post : (A → World → Type 0) → Result A × World → Type 0
  Post P (ok a, w) = P a w
  Post P (raised e, w) = Consistent w

module _ {A B : Type 0} where
  Post-continue :
      (P : A → World → Type 0) (Q : B → World → Type 0) (f : A → Exec World B) (r : Result A)
      (w : World)
      → Post P (r, w)
      → ((a : A) (w' : World) → P a w' → Post Q (f a w'))
      → Post Q (continue r f w)
  Post-continue P Q f (ok a) w p k = k a w p
  Post-continue P Q f (raised e) w p k = p

-- Actions that only tag and sample leave the span ready.
Ready-Kept :
    (m : Exec World Unit) (c r : ℕ) (w : World)
    → Kept m
    → Ready c r w
    → Post (λ _ w'. Ready c r w') (m w)
Ready-Kept m c r w k h = kept (m w).0 (m w).1 (k.at w)
  where
    kept : (res : Result Unit) (w' : World) → Keeps w w' → Post (λ _ w''. Ready c r w'') (res, w')
    kept (ok u) w' e = Ready-Keeps c r w w' e h
    kept (raised e) w' e' = Consistent-Keeps w w' e' h.consistent

context_priority-Keeps :
    (c : ℕ) (priority : ℤ) (w : World) → Keeps w (context_priority c priority w)
context_priority-Keeps c priority w = on_context-Keeps c _ w refl

prioritize-Kept : (s : Option ℕ) (c r : ℕ) → Kept (prioritize s c r)
unfolding prioritize
prioritize-Kept none c r = Kept-pure tt
prioritize-Kept (some s) c r =
    Kept-bind (service_sample s r) _ (Kept-SampledBy (service_sample-Kept s r))
      (λ keeps. Kept-modify _ (context_priority-Keeps c (auto_priority keeps)))

reject-Keeps : (s : Option ℕ) (c : ℕ) (w : World) → Keeps w (reject s c w)
unfolding reject
reject-Keeps none c w = Keeps-refl w
reject-Keeps (some s) c w = context_priority-Keeps c auto_reject w

apply_decision-Keeps :
    (sampler : Sampler) (keeps : Bool) (c r : ℕ) (w : World)
    → Keeps w (apply_decision sampler keeps c r w).1
unfolding apply_decision
apply_decision-Keeps (otel sampler) keeps c r w = context_priority-Keeps c (auto_priority keeps) w
apply_decision-Keeps (rated sampler) true c r w =
    Keeps-trans
      (on_span-Keeps r (set_metric sample_rate_metric_key (rate_value sampler.sample_rate)) w
        (identity-set_metric sample_rate_metric_key (rate_value sampler.sample_rate) (w.spans r)))
      ((prioritize-Kept w.tracer.priority_sampler c r).at _)
apply_decision-Keeps (rated sampler) false c r w = reject-Keeps w.tracer.priority_sampler c w
apply_decision-Keeps all_traces true c r w = (prioritize-Kept w.tracer.priority_sampler c r).at w
apply_decision-Keeps all_traces false c r w = reject-Keeps w.tracer.priority_sampler c w
apply_decision-Keeps (by_service s) true c r w =
    (prioritize-Kept w.tracer.priority_sampler c r).at w
apply_decision-Keeps (by_service s) false c r w = reject-Keeps w.tracer.priority_sampler c w

pub sample_root-Kept : (env : Env) (c r : ℕ) → Kept (sample_root env c r)
unfolding sample_root
sample_root-Kept env c r = record {
  at = λ w.
      (Kept-bind (sample env w.tracer.sampler r) _
          (Kept-SampledBy (sample-Kept env w.tracer.sampler r))
          (λ keeps.
            Kept-bind (modify (on_span r (λ span. record span { sampled = keeps }))) _
              (Kept-modify _
                (λ w'. on_span-Keeps r (λ span. record span { sampled = keeps }) w' refl))
              (λ _.
                Kept-bind (λ w'. apply_decision w'.tracer.sampler keeps c r w') _
                  (record { at = λ w'. apply_decision-Keeps w'.tracer.sampler keeps c r w' })
                  (λ _.
                    Kept-if w.tracer.has_runtime_worker _ _
                      (set_tag-Kept r "language" (text "python" none)) (Kept-pure tt))))).at
        w;
}

joining_span-lone :
    (env : Env) (args : StartArgs) (p : Option ℕ) (ids : Option ℤ × Option ℤ) (w : World)
    → ((joining_span env args p ids w).context ≡ none)
      × ((joining_span env args p ids w).finished ≡ false)
unfolding joining_span new_span
joining_span-lone env args none ids w = (refl, refl)
joining_span-lone env args (some p) ids w = (refl, refl)

root_span-lone :
    (env : Env) (args : StartArgs)
    → ((root_span env args).context ≡ none) × ((root_span env args).finished ≡ false)
unfolding root_span new_span
root_span-lone env args = (refl, refl)

create-Ready :
    (env : Env) (args : StartArgs) (parent : Option ℕ) (c : ℕ) (w : World)
    → Consistent w
    → c < w.next_context
    → Post (λ r w'. Ready c r w') (create env args parent c w)
unfolding create
create-Ready env args parent c w h known = elim (Bool-cases (truthy_id (lineage parent c w).0)) [
  | inl joins ↦ simp joins (
      alloc_span-Ready c (joining_span env args parent (lineage parent c w) w) w h known
        (joining_span-lone env args parent (lineage parent c w) w).0
        (joining_span-lone env args parent (lineage parent c w) w).1)
  | inr starts ↦ simp starts (
      Post-continue (λ _ w'. Ready c w.next_span w') (λ r w'. Ready c r w') _
        (sample_root env c w.next_span (alloc_span (root_span env args) w).1).0
        (sample_root env c w.next_span (alloc_span (root_span env args) w).1).1
        (Ready-Kept (sample_root env c w.next_span) c w.next_span
          (alloc_span (root_span env args) w).1 (sample_root-Kept env c w.next_span)
          (alloc_span-Ready c (root_span env args) w h known (root_span-lone env args).0
            (root_span-lone env args).1))
        (λ _ w' ready. ready))
]

-- A span that was just started: it is the current one of its context.
pub record Started (c r : ℕ) (w : World) : Type 0 where
  pub consistent : Consistent w
  pub own : (w.spans r).context ≡ some c
  pub unfinished : (w.spans r).finished ≡ false
  pub current : (w.contexts c).current_span ≡ some r

Started-Keeps : (c r : ℕ) (w w' : World) → Keeps w w' → Started c r w → Started c r w'
Started-Keeps c r w w' k h = record {
  consistent = Consistent-Keeps w w' k h.consistent;
  own = ap (λ s. s.context) (k.spans r) ∙ h.own;
  unfinished = ap (λ s. s.finished) (k.spans r) ∙ h.unfinished;
  current = ap (λ x. x.current_span) (k.contexts c) ∙ h.current;
}

add_span-Started : (c r : ℕ) (w : World) → Ready c r w → Started c r (add_span c r w)
unfolding add_span
add_span-Started c r w h = record {
  consistent = add_span-Consistent c r w h.consistent h.lone h.unfinished h.allocated h.known;
  own = simp ==_self refl;
  unfinished = simp ==_self h.unfinished;
  current = simp ==_self refl;
}

tag_pid-Kept : (env : Env) (r : ℕ) → Kept (tag_pid env r)
unfolding tag_pid
tag_pid-Kept env r = record {
  at = λ w.
      (Kept-if (is_some (w.spans r).parent) (pure tt) (set_tag r "system.pid" (pid_tag env))
          (Kept-pure tt) (set_tag-Kept r "system.pid" (pid_tag env))).at
        w;
}

active-note_service :
    (s : Option String) (t : Tracer) → (note_service s t).active_context ≡ t.active_context
unfolding note_service
active-note_service none t = refl
active-note_service (some s) t = ground arith

active-check_new_process :
    (pid : ℕ) (t : Tracer) → (check_new_process pid t).active_context ≡ t.active_context
unfolding check_new_process
active-check_new_process pid t = ground arith

start_in-Started :
    (env : Env) (args : StartArgs) (parent : Option ℕ) (c : ℕ) (w : World)
    → Consistent w
    → c < w.next_context
    → Post (λ r w'. Started c r w') (start_in env args parent c w)
unfolding start_in
start_in-Started env args parent c w h known =
    Post-continue (λ r w'. Ready c r w') (λ r w'. Started c r w') _ (create env args parent c w).0
      (create env args parent c w).1 (create-Ready env args parent c w h known)
      (λ r w₁ ready₁.
        Post-continue (λ _ w'. Ready c r w') (λ r w'. Started c r w') _
          (set_tags r w.tracer.tags w₁).0 (set_tags r w.tracer.tags w₁).1
          (Ready-Kept (set_tags r w.tracer.tags) c r w₁ (set_tags-Kept r w.tracer.tags) ready₁)
          (λ _ w₂ ready₂.
            Post-continue (λ _ w'. Ready c r w') (λ r w'. Started c r w') _ (tag_pid env r w₂).0
              (tag_pid env r w₂).1 (Ready-Kept (tag_pid env r) c r w₂ (tag_pid-Kept env r) ready₂)
              (λ _ w₃ ready₃.
                Started-Keeps c r (add_span c r w₃) _
                  (on_tracer-Keeps _ (add_span c r w₃) (
                    active-note_service (noted args parent c w)
                      (check_new_process env.pid (add_span c r w₃).tracer)
                    ∙ active-check_new_process env.pid (add_span c r w₃).tracer))
                  (add_span-Started c r w₃ ready₃))))

in_some :
    (c : ℕ) (x : Result ℕ × World)
    → Post (λ r w'. Started c r w') x
    → Post (λ r w'. (d : ℕ) × Started d r w') x
in_some c (ok r, w') h = (c, h)
in_some c (raised e, w') h = h

next_known : (w : World) → w.next_context < (alloc_context empty_context w).1.next_context
unfolding alloc_context
next_known w = omega arith

at_parent :
    (env : Env) (args : StartArgs) (p : ℕ) (w : World)
    → Consistent w
    → (o : Option ℕ) → (w.spans p).context ≡ o
    → Post (λ r w'. (c : ℕ) × Started c r w') (start_at env args (o, some p) w)
unfolding start_at
at_parent env args p w h none e = h
at_parent env args p w h (some c) e =
    in_some c (start_in env args (some p) c w)
      (start_in-Started env args (some p) c w h (h.fresh_contexts p c e))

-- A context that is handed to `start_span` exists.
abbrev pub Known : ChildOf → World → Type 0
Known of_nothing w = Unit
Known (of_span p) w = Unit
Known (of_context c) w = c < w.next_context

-- `start_span` of contexts and spans that agree leaves them in agreement, whether it returns or
-- raises; where it returns a span, that span is unfinished, is the current one of its context and
-- has it as its context.
pub start_span-Started :
    (env : Env) (args : StartArgs) (child_of : ChildOf) (w : World)
    → Consistent w
    → Known child_of w
    → Post (λ r w'. (c : ℕ) × Started c r w') (start_span env args child_of w)
unfolding start_span start_at resolve alloc_context
start_span-Started env args of_nothing w h known =
    in_some w.next_context (start_in env args none w.next_context (alloc_context empty_context w).1)
      (start_in-Started env args none w.next_context (alloc_context empty_context w).1
        (alloc_context-Consistent empty_context w refl refl h) (next_known w))
start_span-Started env args (of_span p) w h known =
    at_parent env args p w h (w.spans p).context refl
start_span-Started env args (of_context c) w h known =
    in_some c (start_in env args (w.contexts c).current_span c w)
      (start_in-Started env args (w.contexts c).current_span c w h known)
