-- ===== src/Tracer/Remote.antt =====
-- oteltrace/tracer.py: a span that `start_span` starts in a context of another process, as a
-- propagator extracts it: it has a trace id, and no span of this process.
use mathlib.Core.Path.{subst}
use opentelemetry_auto_instr.Common.{
  ℕ, ℤ, ◌≡◌, refl, sym, ◌∙◌, ap, ==_self, true, none, some, [], ◌∷◌, ◌++◌, ok, nonzero,
}
use opentelemetry_auto_instr.World.{Span, World, Env}
use opentelemetry_auto_instr.World.Keeps.{identity, Keeps, Keeps-trans}
use opentelemetry_auto_instr.Span.{new_span, set_tags}
use opentelemetry_auto_instr.Span.Plain.{Plain, set_tags-Settled}
use opentelemetry_auto_instr.Context.{add_span}
use opentelemetry_auto_instr.Tracer.{
  alloc_span, of_context, StartArgs, truthy_id, lineage, joining_span, create, tag_pid, start_at,
  resolve, start_span,
}
use opentelemetry_auto_instr.Tracer.Parents.{tag_pid-Settled, started, start_in_ends, allocated}

-- A span r, in w', that was started in w in the context c of another process.
pub record Continues (env : Env) (args : StartArgs) (w : World) (c r : ℕ) (remote_id : ℤ)
    (w' : World) : Type 0 where
  pub name : (w'.spans r).name ≡ args.name
  pub service : (w'.spans r).service ≡ args.service
  pub trace_id : (w'.spans r).trace_id ≡ remote_id
  pub span_id : (w'.spans r).span_id ≡ env.fresh_span_id
  pub parent_id : (w'.spans r).parent_id ≡ (w.contexts c).parent_span_id
  pub parent : (w'.spans r).parent ≡ none
  pub sampled : (w'.spans r).sampled ≡ true
  pub context : (w'.spans r).context ≡ some c
  pub current : (w'.contexts c).current_span ≡ some r
  pub trace : (w'.contexts c).trace ≡ (w.contexts c).trace ++ r ∷ []

-- the span that is made
abbrev remote_span : Env → StartArgs → ℕ → World → Span
remote_span env args c w =
    joining_span env args none ((w.contexts c).parent_trace_id, (w.contexts c).parent_span_id) w

create_remote :
    (env : Env) (args : StartArgs) (c : ℕ) (w : World)
    → truthy_id (w.contexts c).parent_trace_id ≡ true
    → create env args none c w ≡ alloc_span (remote_span env args c w) w
unfolding create lineage
create_remote env args c w e = simp e refl

continued :
    (env : Env) (args : StartArgs) (c : ℕ) (trace_id : ℤ) (w : World)
    → Plain w.tracer.tags
    → (w.contexts c).parent_trace_id ≡ some trace_id
    → nonzero trace_id ≡ true
    → Continues env args w c w.next_span trace_id
        (started env args none c w.next_span w (alloc_span (remote_span env args c w) w).1)
unfolding alloc_span joining_span new_span add_span
continued env args c trace_id w plain remote traced =
    let r = w.next_span in
    let w₁ = (alloc_span (remote_span env args c w) w).1 in
    let w₂ = (set_tags r w.tracer.tags w₁).1 in
    let tagged = set_tags-Settled r w.tracer.tags w₁ plain in
    let numbered = tag_pid-Settled env r w₂ in
    let kept : Keeps w₁ (tag_pid env r w₂).1 = Keeps-trans tagged.keeps numbered.keeps in
    let same : identity ((tag_pid env r w₂).1.spans r) ≡ identity (w₁.spans r) = kept.spans r in
    record {
      name = simp ==_self (ap (λ i. i.name) same ∙ simp ==_self refl);
      service = simp ==_self (ap (λ i. i.service) same ∙ simp ==_self refl);
      trace_id = simp ==_self (ap (λ i. i.trace_id) same ∙ simp (==_self, remote, traced) refl);
      span_id = simp ==_self (ap (λ i. i.span_id) same ∙ simp ==_self refl);
      parent_id = simp ==_self (ap (λ i. i.parent_id) same ∙ simp ==_self refl);
      parent = simp ==_self (ap (λ i. i.parent) same ∙ simp ==_self refl);
      sampled = simp ==_self (numbered.sampled r ∙ tagged.sampled r ∙ simp ==_self refl);
      context = simp ==_self refl;
      current = simp ==_self refl;
      trace = simp ==_self (ap (λ x. x.trace ++ r ∷ []) (kept.contexts c));
    }

-- `start_span` in a context that has a trace id other than 0 and no current span, and a tracer none of
-- whose tags chooses a priority by hand, returns a new span that continues the trace of the context:
-- with its trace id, its span id as the parent id, no local parent, and as the current span and the
-- last one of the context's trace; no sampler is asked.
pub start_span-Continues :
    (env : Env) (args : StartArgs) (c : ℕ) (trace_id : ℤ) (w : World)
    → (w.contexts c).current_span ≡ none
    → (w.contexts c).parent_trace_id ≡ some trace_id
    → nonzero trace_id ≡ true
    → Plain w.tracer.tags
    → let x = start_span env args (of_context c) w in
      (x.0 ≡ ok w.next_span) × Continues env args w c w.next_span trace_id x.1
unfolding start_span resolve start_at
start_span-Continues env args c trace_id w alone remote traced plain =
    let r = w.next_span in
    let w₁ = (alloc_span (remote_span env args c w) w).1 in
    let returned : start_at env args (some c, (w.contexts c).current_span) w
        ≡ (ok r, started env args none c r w w₁) =
      ap (λ o. start_at env args (some c, o) w) alone
      ∙ start_in_ends env args none c r w w₁ plain
          (create_remote env args c w (ap truthy_id remote ∙ traced) ∙ allocated _ w) in
    subst (λ x. (x.0 ≡ ok r) × Continues env args w c r trace_id x.1) (sym returned)
      (refl, continued env args c trace_id w plain remote traced)
