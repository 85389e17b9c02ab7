-- ===== src/Tracer/Parents.antt =====
-- oteltrace/tracer.py: what a span that `start_span` starts under a parent inherits.
use mathlib.Core.Path.{subst}
use opentelemetry_auto_instr.Common.{
  ℕ, ℤ, ◌≡◌, refl, sym, ◌∙◌, ap, ==_self, true, Option, some, [], ◌∷◌, ◌++◌, Bool-cases, inl, inr,
  ok, Exec, continue, nonzero, is_some, ◌>>◌,
}
use opentelemetry_auto_instr.World.{Span, World, Env}
use opentelemetry_auto_instr.World.Keeps.{identity, Keeps, Keeps-trans}
use opentelemetry_auto_instr.Span.{new_span, set_tags}
use opentelemetry_auto_instr.Span.Plain.{
  Plain, Settled, Settled-pure, set_tag-Settled, set_tags-Settled,
}
use opentelemetry_auto_instr.Context.{add_span}
use opentelemetry_auto_instr.Tracer.{
  alloc_span, of_span, StartArgs, inherit, lineage, joining_span, create, tag_pid, pid_tag,
  on_tracer, note_service, noted, check_new_process, register, complete, start_in, start_at,
  resolve, start_span,
}

pub tag_pid-Settled : (env : Env) (r : ℕ) (w : World) → Settled (tag_pid env r w) w
unfolding tag_pid
tag_pid-Settled env r w = elim (Bool-cases (is_some (w.spans r).parent)) [
  | inl child ↦ record {
    returns = simp child refl;
    keeps = simp child (Settled-pure w).keeps;
    sampled = λ q. simp child refl;
  }
  | inr root ↦
      (let h = set_tag-Settled r "system.pid" (pid_tag env) w refl in
        record {
          returns = simp root h.returns;
          keeps = simp root h.keeps;
          sampled = λ q. simp root (h.sampled q);
        })
]

after-Settled :
    {A : Type 0} (m : Exec World Unit) (n : Exec World A) (w : World)
    → Settled (m w) w
    → (m >> n) w ≡ n (m w).1
after-Settled m n w h = ap (λ x. continue x (λ _. n) (m w).1) h.returns

-- The world that `start_in` ends in, once the new span stands in w.
abbrev pub started : Env → StartArgs → Option ℕ → ℕ → ℕ → World → World → World
started env args parent c r w w₁ =
    let w₂ = (set_tags r w.tracer.tags w₁).1 in
    on_tracer (λ t. note_service (noted args parent c w) (check_new_process env.pid t))
      (add_span c r (tag_pid env r w₂).1)

pub start_in_ends :
    (env : Env) (args : StartArgs) (parent : Option ℕ) (c r : ℕ) (w w₁ : World)
    → Plain w.tracer.tags
    → create env args parent c w ≡ (ok r, w₁)
    → start_in env args parent c w ≡ (ok r, started env args parent c r w w₁)
unfolding start_in
start_in_ends env args parent c r w w₁ plain e =
    ap (λ x. continue x.0 (complete env (noted args parent c w) w.tracer.tags c) x.1) e
    ∙ after-Settled (set_tags r w.tracer.tags)
        (tag_pid env r >> register env (noted args parent c w) c r) w₁
        (set_tags-Settled r w.tracer.tags w₁ plain)
    ∙ after-Settled (tag_pid env r) (register env (noted args parent c w) c r)
        (set_tags r w.tracer.tags w₁).1 (tag_pid-Settled env r _)

pub allocated :
    (span : Span) (w : World) → alloc_span span w ≡ (ok w.next_span, (alloc_span span w).1)
unfolding alloc_span
allocated span w = refl

create_joins :
    (env : Env) (args : StartArgs) (p c : ℕ) (w : World)
    → nonzero (w.spans p).trace_id ≡ true
    → create env args (some p) c w
      ≡ alloc_span
          (joining_span env args (some p) (some (w.spans p).trace_id, some (w.spans p).span_id) w)
          w
unfolding create lineage
create_joins env args p c w e = simp e refl

-- A span r, in w', that was started as a child of the span p in w.
pub record Inherits (env : Env) (args : StartArgs) (w : World) (p c r : ℕ) (w' : World)
    : Type 0 where
  pub name : (w'.spans r).name ≡ args.name
  pub service : (w'.spans r).service ≡ inherit args.service (w.spans p).service
  pub trace_id : (w'.spans r).trace_id ≡ (w.spans p).trace_id
  pub span_id : (w'.spans r).span_id ≡ env.fresh_span_id
  pub parent_id : (w'.spans r).parent_id ≡ some (w.spans p).span_id
  pub parent : (w'.spans r).parent ≡ some p
  pub sampled : (w'.spans r).sampled ≡ (w.spans p).sampled
  pub context : (w'.spans r).context ≡ some c
  pub current : (w'.contexts c).current_span ≡ some r
  pub trace : (w'.contexts c).trace ≡ (w.contexts c).trace ++ r ∷ []

joined :
    (env : Env) (args : StartArgs) (p c : ℕ) (w : World)
    → Plain w.tracer.tags
    → nonzero (w.spans p).trace_id ≡ true
    → let ids : Option ℤ × Option ℤ = (some (w.spans p).trace_id, some (w.spans p).span_id) in
      let w₁ = (alloc_span (joining_span env args (some p) ids w) w).1 in
      Inherits env args w p c w.next_span (started env args (some p) c w.next_span w w₁)
unfolding alloc_span joining_span new_span add_span
joined env args p c w plain traced =
    let r = w.next_span in
    let ids : Option ℤ × Option ℤ = (some (w.spans p).trace_id, some (w.spans p).span_id) in
    let w₁ = (alloc_span (joining_span env args (some p) ids w) w).1 in
    let w₂ = (set_tags r w.tracer.tags w₁).1 in
    let tagged = set_tags-Settled r w.tracer.tags w₁ plain in
    let numbered = tag_pid-Settled env r w₂ in
    let kept : Keeps w₁ (tag_pid env r w₂).1 = Keeps-trans tagged.keeps numbered.keeps in
    let same : identity ((tag_pid env r w₂).1.spans r) ≡ identity (w₁.spans r) = kept.spans r in
    record {
      name = simp ==_self (ap (λ i. i.name) same ∙ simp ==_self refl);
      service = simp ==_self (ap (λ i. i.service) same ∙ simp ==_self refl);
      trace_id = simp ==_self (ap (λ i. i.trace_id) same ∙ simp (==_self, traced) refl);
      span_id = simp ==_self (ap (λ i. i.span_id) same ∙ simp ==_self refl);
      parent_id = simp ==_self (ap (λ i. i.parent_id) same ∙ simp ==_self refl);
      parent = simp ==_self (ap (λ i. i.parent) same ∙ simp ==_self refl);
      sampled = simp ==_self (numbered.sampled r ∙ tagged.sampled r ∙ simp ==_self refl);
      context = simp ==_self refl;
      current = simp ==_self refl;
      trace = simp ==_self (ap (λ x. x.trace ++ r ∷ []) (kept.contexts c));
    }

-- `start_span` with a parent that has a context and a trace id, and a tracer none of whose tags
-- chooses a priority by hand, returns a new span: it has the name that was asked for, the parent's
-- service unless another was asked for, the parent's trace id and sampling decision, the parent's
-- span id as its parent id, and a span id of its own; it is the last span of the parent's context's
-- trace, and its current span.
pub child-Inherits :
    (env : Env) (args : StartArgs) (p c : ℕ) (w : World)
    → (w.spans p).context ≡ some c
    → nonzero (w.spans p).trace_id ≡ true
    → Plain w.tracer.tags
    → let x = start_span env args (of_span p) w in
      (x.0 ≡ ok w.next_span) × Inherits env args w p c w.next_span x.1
unfolding start_span resolve start_at
child-Inherits env args p c w own traced plain =
    let r = w.next_span in
    let ids : Option ℤ × Option ℤ = (some (w.spans p).trace_id, some (w.spans p).span_id) in
    let w₁ = (alloc_span (joining_span env args (some p) ids w) w).1 in
    let returned : start_at env args ((w.spans p).context, some p) w
        ≡ (ok r, started env args (some p) c r w w₁) =
      ap (λ o. start_at env args (o, some p) w) own
      ∙ start_in_ends env args (some p) c r w w₁ plain
          (create_joins env args p c w traced ∙ allocated _ w) in
    subst (λ x. (x.0 ≡ ok r) × Inherits env args w p c r x.1) (sym returned)
      (refl, joined env args p c w plain traced)
