-- ===== src/Tracer/Roots.antt =====
-- oteltrace/tracer.py: the root span that `start_span` starts in a context with no trace, for a tracer
-- with a `RateSampler` and no priority sampler.
use mathlib.Core.Path.{subst}
use opentelemetry_auto_instr.Common.{
  ℕ, ◌≡◌, refl, sym, ◌∙◌, ap, ==_self, Bool, true, false, none, some, [], ◌∷◌, ◌++◌, ok, pure,
  continue, if◌then◌else◌,
}
use opentelemetry_auto_instr.Value.{text, sample_rate_metric_key}
use opentelemetry_auto_instr.Sampler.{RateSampler, rate_sample, rated}
use opentelemetry_auto_instr.World.{World, Env, on_span}
use opentelemetry_auto_instr.World.Keeps.{identity, Keeps, Keeps-trans, update_keeps}
use opentelemetry_auto_instr.Span.{new_span, set_tags, set_tag}
use opentelemetry_auto_instr.Span.Plain.{
  Plain, Settled, Settled-pure, set_tag-Settled, set_tags-Settled, sampled-set_metric,
}
use opentelemetry_auto_instr.Context.{add_span}
use opentelemetry_auto_instr.Sampling.{sample, rate_value}
use opentelemetry_auto_instr.Tracer.{
  alloc_span, of_context, StartArgs, truthy_id, lineage, root_span, prioritize, reject,
  apply_decision, sample_root, create, tag_pid, start_at, resolve, start_span,
}
use opentelemetry_auto_instr.Tracer.Keeps.{sample_root-Kept}
use opentelemetry_auto_instr.Tracer.Parents.{tag_pid-Settled, started, start_in_ends}

-- A span r, in w', that was started in w as the root of a new trace in the context c.
pub record Begins (env : Env) (args : StartArgs) (w : World) (s : RateSampler) (c r : ℕ)
    (w' : World) : Type 0 where
  pub name : (w'.spans r).name ≡ args.name
  pub service : (w'.spans r).service ≡ args.service
  pub trace_id : (w'.spans r).trace_id ≡ env.fresh_trace_id
  pub span_id : (w'.spans r).span_id ≡ env.fresh_span_id
  pub parent_id : (w'.spans r).parent_id ≡ none
  pub parent : (w'.spans r).parent ≡ none
  pub sampled : (w'.spans r).sampled ≡ rate_sample s env.fresh_trace_id
  pub context : (w'.spans r).context ≡ some c
  pub current : (w'.contexts c).current_span ≡ some r
  pub trace : (w'.contexts c).trace ≡ (w.contexts c).trace ++ r ∷ []

-- the action of `sample_root` after the span was marked
decided :
    (s : RateSampler) (keeps : Bool) (c r : ℕ) (w : World)
    → w.tracer.priority_sampler ≡ none
    → ((apply_decision (rated s) keeps c r w).0 ≡ ok tt)
      × (((apply_decision (rated s) keeps c r w).1.spans r).sampled ≡ (w.spans r).sampled)
unfolding apply_decision prioritize reject on_span
decided s false c r w unprioritized = rw unprioritized (refl, refl)
decided s true c r w unprioritized = rw unprioritized (
  refl,
  update_keeps (λ span. span.sampled) w.spans r r _
      (sampled-set_metric sample_rate_metric_key (rate_value s.sample_rate) (w.spans r)),
)

language-Settled :
    (b : Bool) (r : ℕ) (w : World)
    → Settled ((if b then set_tag r "language" (text "python" none) else pure tt) w) w
language-Settled true r w = set_tag-Settled r "language" (text "python" none) w refl
language-Settled false r w = Settled-pure w

sample_root-rated :
    (env : Env) (s : RateSampler) (c r : ℕ) (w : World)
    → w.tracer.sampler ≡ rated s
    → w.tracer.priority_sampler ≡ none
    → let x = sample_root env c r w in
      (x.0 ≡ ok tt) × ((x.1.spans r).sampled ≡ rate_sample s (w.spans r).trace_id)
unfolding sample_root sample on_span
sample_root-rated env s c r w by_rate unprioritized =
    let keeps = rate_sample s (w.spans r).trace_id in
    let w₁ = on_span r (λ span. record span { sampled = keeps }) w in
    let d = decided s keeps c r w₁ unprioritized in
    let w₂ = (apply_decision (rated s) keeps c r w₁).1 in
    let tagged = language-Settled w.tracer.has_runtime_worker r w₂ in
    simp (by_rate, d.0) (tagged.returns, tagged.sampled r ∙ d.1 ∙ simp ==_self refl)

-- the world in which the new root is marked with its decision
abbrev rooted : Env → StartArgs → ℕ → World → World
rooted env args c w = (sample_root env c w.next_span (alloc_span (root_span env args) w).1).1

create_root :
    (env : Env) (args : StartArgs) (c : ℕ) (w : World)
    → truthy_id (w.contexts c).parent_trace_id ≡ false
    → (sample_root env c w.next_span (alloc_span (root_span env args) w).1).0 ≡ ok tt
    → create env args none c w ≡ (ok w.next_span, rooted env args c w)
unfolding create lineage
create_root env args c w new returns =
    let r = w.next_span in
    simp new (ap (λ x. continue x (λ _. pure r) (rooted env args c w)) returns)

begun :
    (env : Env) (args : StartArgs) (s : RateSampler) (c : ℕ) (w : World)
    → Plain w.tracer.tags
    → ((rooted env args c w).spans w.next_span).sampled ≡ rate_sample s env.fresh_trace_id
    → Begins env args w s c w.next_span
        (started env args none c w.next_span w (rooted env args c w))
unfolding alloc_span root_span new_span add_span
begun env args s c w plain marked =
    let r = w.next_span in
    let w₁ = (alloc_span (root_span env args) w).1 in
    let w₂ = rooted env args c w in
    let w₃ = (set_tags r w.tracer.tags w₂).1 in
    let tagged = set_tags-Settled r w.tracer.tags w₂ plain in
    let numbered = tag_pid-Settled env r w₃ in
    let kept : Keeps w₁ (tag_pid env r w₃).1 =
      Keeps-trans ((sample_root-Kept env c r).at w₁) (Keeps-trans tagged.keeps numbered.keeps) in
    let same : identity ((tag_pid env r w₃).1.spans r) ≡ identity (w₁.spans r) = kept.spans r in
    record {
      name = simp ==_self (ap (λ i. i.name) same ∙ simp ==_self refl);
      service = simp ==_self (ap (λ i. i.service) same ∙ simp ==_self refl);
      trace_id = simp ==_self (ap (λ i. i.trace_id) same ∙ simp ==_self refl);
      span_id = simp ==_self (ap (λ i. i.span_id) same ∙ simp ==_self refl);
      parent_id = simp ==_self (ap (λ i. i.parent_id) same ∙ simp ==_self refl);
      parent = simp ==_self (ap (λ i. i.parent) same ∙ simp ==_self refl);
      sampled = simp ==_self (numbered.sampled r ∙ tagged.sampled r ∙ marked);
      context = simp ==_self refl;
      current = simp ==_self refl;
      trace = simp ==_self (ap (λ x. x.trace ++ r ∷ []) (kept.contexts c));
    }

-- `start_span` in a context that has no current span and no trace id other than 0, and a tracer with
-- a `RateSampler`, no priority sampler and no tag that chooses a priority by hand, returns a new span
-- that is the root of a new trace: it has the fresh trace id and the fresh span id, no parent, and
-- the decision of the sampler for its trace id; it is the current span and the last one of the
-- context's trace.
pub start_span-Begins :
    (env : Env) (args : StartArgs) (s : RateSampler) (c : ℕ) (w : World)
    → (w.contexts c).current_span ≡ none
    → truthy_id (w.contexts c).parent_trace_id ≡ false
    → w.tracer.sampler ≡ rated s
    → w.tracer.priority_sampler ≡ none
    → Plain w.tracer.tags
    → let x = start_span env args (of_context c) w in
      (x.0 ≡ ok w.next_span) × Begins env args w s c w.next_span x.1
unfolding start_span resolve start_at alloc_span root_span new_span
start_span-Begins env args s c w alone new by_rate unprioritized plain =
    let r = w.next_span in
    let w₂ = rooted env args c w in
    let decision =
      sample_root-rated env s c r (alloc_span (root_span env args) w).1 by_rate unprioritized in
    let returned : start_at env args (some c, (w.contexts c).current_span) w
        ≡ (ok r, started env args none c r w w₂) =
      ap (λ o. start_at env args (some c, o) w) alone
      ∙ start_in_ends env args none c r w w₂ plain (create_root env args c w new decision.0) in
    subst (λ x. (x.0 ≡ ok r) × Begins env args w s c r x.1) (sym returned)
      (refl, begun env args s c w plain (decision.1 ∙ simp ==_self refl))
