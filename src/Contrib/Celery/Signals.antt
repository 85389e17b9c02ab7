-- ===== src/Contrib/Celery/Signals.antt =====
-- oteltrace/contrib/celery/signals.py: which span of a task a signal starts, retains and finishes.
use opentelemetry_auto_instr.Common.{
  ℕ, ◌==◌, ◌≡◌, ◌≢◌, refl, ap, ◌∙◌, Bool, true, false, ◌&&◌, Option, none, some, String, List, [],
  ◌∷◌, Dict, insert, lookup, str_eq, arith, ok, if◌then◌else◌, Bool-cases, inl, inr, Exec, ◌>>◌,
  modify,
}
use opentelemetry_auto_instr.Value.{Value}
use opentelemetry_auto_instr.Text.{other_start}
use opentelemetry_auto_instr.World.{World}
use opentelemetry_auto_instr.World.Keeps.{Keeps, Keeps-trans, identity}
use opentelemetry_auto_instr.Context.Consistent.{Consistent, Consistent-Keeps}
use opentelemetry_auto_instr.Span.{set_tag, set_tags}
use opentelemetry_auto_instr.Span.Tags.{is_manual}
use opentelemetry_auto_instr.Span.Plain.{Plain, Settled, set_tag-Settled, set_tags-Settled}
use opentelemetry_auto_instr.Pin.{get_from}
use opentelemetry_auto_instr.Recorder.{trace, finish}
use opentelemetry_auto_instr.Recorder.Again.{finished-finish, finish_others}
use opentelemetry_auto_instr.Contrib.Celery.{
  key_eq, SpanDict, on_world, or_app, detach_from, Worker, Broker, retrieve_span, attach_span,
  detach_span, is_skipped, tag_name, tag_keys, value_or_none, add_tags, tags_from_context, task_pin,
  run_done, trace_postrun, publish_args, publish_pinned, trace_before_publish,
}
use opentelemetry_auto_instr.Contrib.Celery.Retained.{
  retrieve_span-attach_span, retrieve_span-detach_span,
}

plain_name : (key : String) → is_manual (tag_name key) ≡ false
plain_name key =
    let name = if str_eq key "origin" then "hostname" else key in
    simp
      (
        other_start "c" "m" "elery." "anual.keep" name (λ e. omega arith),
        other_start "c" "m" "elery." "anual.drop" name (λ e. omega arith),
      )
      refl

insert-Plain :
    (key : String) (value : Value) (tags : Dict Value)
    → is_manual key ≡ false
    → Plain tags
    → Plain (insert key value tags)
unfolding insert
insert-Plain key value [] e h = (e, tt)
insert-Plain key value ((k, v) ∷ tags) e (h, hs) = elim (Bool-cases (str_eq k key)) [
  | inl same ↦ rw same (h, hs)
  | inr other ↦ rw other (h, insert-Plain key value tags e hs)
]

add_tags-Plain :
    (is_no_limit : Value → Bool) (context : Dict Value) (keys : List String) (tags : Dict Value)
    → Plain tags
    → Plain (add_tags is_no_limit context keys tags)
unfolding add_tags
add_tags-Plain is_no_limit context [] tags h = h
add_tags-Plain is_no_limit context (key ∷ keys) tags h =
    let value = value_or_none (lookup key context) in
    add_tags-Plain is_no_limit context keys _
      (elim (Bool-cases (is_skipped is_no_limit key value)) [
        | inl skipped ↦ rw skipped h
        | inr added ↦ rw added (insert-Plain (tag_name key) value tags (plain_name key) h)
      ])

tags_from_context-Plain :
    (is_no_limit : Value → Bool) (context : Dict Value)
    → Plain (tags_from_context is_no_limit context)
unfolding tags_from_context
tags_from_context-Plain is_no_limit context = add_tags-Plain is_no_limit context tag_keys [] tt

-- Which span every task has under every id and flag, after a step that concerns one of them.
pub Holds : ℕ → String → Bool → Option ℕ → Worker → Worker → Type 0
Holds task id publish o before after =
    (t : ℕ) (i : String) (p : Bool)
    → retrieve_span t i p after
      ≡ (if task == t && key_eq (id, publish) (i, p) then o else retrieve_span t i p before)

-- an action of the tracer that returns, and what follows it
on_world-then :
    (m : Exec World Unit) (k : Exec Worker Unit) (s : Worker)
    → (m s.tracing).0 ≡ ok tt
    → (on_world m >> k) s ≡ k (record s { tracing = (m s.tracing).1 })
on_world-then m k s e = rw e refl

tracing-detach_span :
    (task : ℕ) (id : String) (publish : Bool) (s : Worker)
    → (detach_span task id publish s).tracing ≡ s.tracing
unfolding detach_span
tracing-detach_span task id publish s = held (s.dicts task)
  where
    held : (o : Option SpanDict) → (detach_from o task id publish s).tracing ≡ s.tracing
    held none = refl
    held (some d) = refl

-- the tags that `trace_postrun` sets
abbrev run_tags : Broker → Dict Value → Dict Value → ℕ → World → World
run_tags b kwargs request r w =
    let w₁ = (set_tag r "celery.action" (Value.text "run" none) w).1 in
    let w₂ = (set_tags r (tags_from_context b.is_no_limit kwargs) w₁).1 in
    (set_tags r (tags_from_context b.is_no_limit request) w₂).1

action-Settled : (r : ℕ) (value : Value) (w : World) → Settled (set_tag r "celery.action" value w) w
action-Settled r value w = set_tag-Settled r "celery.action" value w refl

context-Settled :
    (b : Broker) (context : Dict Value) (r : ℕ) (w : World)
    → Settled (set_tags r (tags_from_context b.is_no_limit context) w) w
context-Settled b context r w =
    set_tags-Settled r _ w (tags_from_context-Plain b.is_no_limit context)

run_tags-Keeps :
    (b : Broker) (kwargs request : Dict Value) (r : ℕ) (w : World)
    → Keeps w (run_tags b kwargs request r w)
run_tags-Keeps b kwargs request r w =
    Keeps-trans (action-Settled r (Value.text "run" none) w).keeps
      (Keeps-trans (context-Settled b kwargs r _).keeps (context-Settled b request r _).keeps)

run_done-some :
    (b : Broker) (kwargs request : Dict Value) (task : ℕ) (id : String) (r : ℕ) (s : Worker)
    → run_done b kwargs request task id (some r) s ≡ (
      ok tt,
      detach_span task id false
          (record s { tracing = finish b.env none r (run_tags b kwargs request r s.tracing) }),
    )
run_done-some b kwargs request task id r s =
    let action = set_tag r "celery.action" (Value.text "run" none) in
    let kwargs_tags = set_tags r (tags_from_context b.is_no_limit kwargs) in
    let request_tags = set_tags r (tags_from_context b.is_no_limit request) in
    let closing = on_world (modify (finish b.env none r)) >> modify (detach_span task id false) in
    let w₁ = (action s.tracing).1 in
    let w₂ = (kwargs_tags w₁).1 in
    on_world-then action (on_world kwargs_tags >> (on_world request_tags >> closing)) s
      (action-Settled r (Value.text "run" none) s.tracing).returns
    ∙ on_world-then kwargs_tags (on_world request_tags >> closing) (record s { tracing = w₁ })
        (context-Settled b kwargs r w₁).returns
    ∙ on_world-then request_tags closing (record s { tracing = w₂ })
        (context-Settled b request r w₂).returns

-- `trace_postrun` for a task that has a span for the id, with contexts and spans that agree: it does not
-- raise; the span is finished, and all others keep everything but their tags, metrics, error and
-- decision; and the span is detached from the task, and no other from a task.
pub trace_postrun-Finishes :
    (b : Broker) (task : ℕ) (id : String) (kwargs request : Dict Value) (s : Worker) (r : ℕ)
    → retrieve_span task id false s ≡ some r
    → Consistent s.tracing
    → let x = trace_postrun b (some task, some id) kwargs request s in
      (x.0 ≡ ok tt)
      × ((x.1.tracing.spans r).finished ≡ true)
      × ((q : ℕ) → r ≢ q → identity (x.1.tracing.spans q) ≡ identity (s.tracing.spans q))
      × Holds task id false none s x.1
unfolding trace_postrun Holds retrieve_span
trace_postrun-Finishes b task id kwargs request s r e h =
    let w = run_tags b kwargs request r s.tracing in
    let kept = run_tags-Keeps b kwargs request r s.tracing in
    let agree = Consistent-Keeps s.tracing w kept h in
    let s' = record s { tracing = finish b.env none r w } in
    let traced = tracing-detach_span task id false s' in
    rw (e, run_done-some b kwargs request task id r s)
      (
        refl,
        ap (λ v. (v.spans r).finished) traced ∙ finished-finish b.env none r w agree,
        λ q other.
            ap (λ v. identity (v.spans q)) traced
            ∙ finish_others b.env none r w agree q other
            ∙ kept.spans q,
        λ t i p. retrieve_span-detach_span task t id i false p s',
      )

publish_pinned-Retains :
    (b : Broker) (task : ℕ) (name id : String) (kwargs : Dict Value) (s : Worker) (q r : ℕ)
    (o : Option ℕ)
    → ok o ≡ ok (some q)
    → (trace b.env (publish_args b name) s.tracing).0 ≡ ok r
    → let x = publish_pinned b name kwargs task id o s in
      (x.0 ≡ ok tt) × Holds task id true (some r) s x.1
unfolding Holds retrieve_span
publish_pinned-Retains b task name id kwargs s q r none e f = absurd (ground (arith, e))
publish_pinned-Retains b task name id kwargs s q r (some q') e f =
    let w = (trace b.env (publish_args b name) s.tracing).1 in
    let action = set_tag r "celery.action" (Value.text "apply_async" none) in
    let id_tag = set_tag r "celery.id" (Value.text id (b.as_float id)) in
    let context_tags = set_tags r (tags_from_context b.is_no_limit kwargs) in
    let closing : Exec Worker Unit = modify (attach_span task id r true) in
    let w₁ = (action w).1 in
    let w₂ = (id_tag w₁).1 in
    let tagged =
      on_world-then action (on_world id_tag >> (on_world context_tags >> closing))
        (record s { tracing = w }) (action-Settled r (Value.text "apply_async" none) w).returns
      ∙ on_world-then id_tag (on_world context_tags >> closing) (record s { tracing = w₁ })
          (set_tag-Settled r "celery.id" (Value.text id (b.as_float id)) w₁ refl).returns
      ∙ on_world-then context_tags closing (record s { tracing = w₂ })
          (context-Settled b kwargs r w₂).returns in
    rw (f, tagged)
      (
        refl,
        λ t i p.
            retrieve_span-attach_span task t id i r true p
              (record s { tracing = (context_tags w₂).1 }),
      )

-- `trace_before_publish` for a task with a pin, where the tracer starts the span `r`: it does not raise,
-- and `r` is the span of the task's publication under the id; every other span of a task stays, also
-- the one that runs under the same id.
pub trace_before_publish-Retains :
    (b : Broker) (task : ℕ) (name id : String) (kwargs : Dict Value) (s : Worker) (q r : ℕ)
    → (task_pin b task s).0 ≡ ok (some q)
    → (trace b.env (publish_args b name) s.tracing).0 ≡ ok r
    → let x = trace_before_publish b name (some task, some id) kwargs s in
      (x.0 ≡ ok tt) × Holds task id true (some r) s x.1
unfolding trace_before_publish task_pin Holds retrieve_span
trace_before_publish-Retains b task name id kwargs s q r e f =
    let found = or_app (b.app_of task) (get_from task s.pins) in
    publish_pinned-Retains b task name id kwargs (record s { pins = found.1 }) q r found.0 e f
