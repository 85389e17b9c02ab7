-- ===== src/Recorder/Invariant.antt =====
-- oteltrace/tracer.py, span.py and context.py: a program that starts, tags and finishes spans, in
-- any order and from any state that it can reach, keeps the contexts and the spans in agreement.
use opentelemetry_auto_instr.Common.{
  ℕ, ◌<◌, ◌≡◌, refl, Bool, true, false, Option, none, some, String, List, [], ◌∷◌, Dict, arith,
  Bool-cases, inl, inr, Result, ok, raised, continue, is_some, ◌||◌, or_default,
}
use opentelemetry_auto_instr.Value.{Value}
use opentelemetry_auto_instr.Writer.{AgentWriter, agent_writer, write}
use opentelemetry_auto_instr.World.{Span, Context, World, Env, on_span}
use opentelemetry_auto_instr.World.Keeps.{
  Keeps, Keeps-refl, Keeps-trans, on_span-Keeps, on_tracer-Keeps,
}
use opentelemetry_auto_instr.Span.{set_tags, set_metric, ExcInfo, set_exc_info, remove_exc_info}
use opentelemetry_auto_instr.Span.Keeps.{
  set_tags-Kept, identity-set_metric, set_exc_info-Kept, identity-remove_exc_info,
}
use opentelemetry_auto_instr.Context.{empty_context, close_span, get, Taken}
use opentelemetry_auto_instr.Context.Consistent.{Consistent, Consistent-Keeps}
use opentelemetry_auto_instr.Context.Closing.{mark-Consistent, close_span-Consistent}
use opentelemetry_auto_instr.Context.Taking.{get-HandedOver}
use opentelemetry_auto_instr.Tracer.{
  alloc_context, StartArgs, ChildOf, of_context, start_span, on_tracer,
}
use opentelemetry_auto_instr.Tracer.Ready.{alloc_context-Consistent}
use opentelemetry_auto_instr.Tracer.Keeps.{Post, Known, Started, start_span-Started}
use opentelemetry_auto_instr.Recorder.{
  call_context, get_call_context, activate, trace, hand_to, write_trace, write_taken, record_trace,
  mark_finished, close_and_record, finish, ConfigureArgs, set_priority_sampling, is_false,
  link_sampler, configure,
}

hand_to-Keeps :
    (env : Env) (rs : List ℕ) (o : Option (AgentWriter ℕ)) (w : World)
    → Keeps w (hand_to env rs o w).1
hand_to-Keeps env rs none w = Keeps-refl w
hand_to-Keeps env rs (some writer) w =
    on_tracer-Keeps (record w.tracer { writer = some (write env.pid env.slot rs writer) }) w refl

write_trace-Keeps : (env : Env) (rs : List ℕ) (w : World) → Keeps w (write_trace env rs w).1
unfolding write_trace
write_trace-Keeps env [] w = Keeps-refl w
write_trace-Keeps env (r ∷ rs) w = elim (Bool-cases w.tracer.enabled) [
  | inl on ↦ simp on (hand_to-Keeps env (r ∷ rs) w.tracer.writer w)
  | inr off ↦ simp off (Keeps-refl w)
]

pub write_taken-Keeps :
    (env : Env) (taken : Taken) (w : World) → Keeps w (write_taken env taken w).1
write_taken-Keeps env none w = Keeps-refl w
write_taken-Keeps env (some (taken, true)) w = write_trace-Keeps env taken w
write_taken-Keeps env (some (taken, false)) w = Keeps-refl w

-- `record`, also where it raises
record_trace-Consistent :
    (env : Env) (c : ℕ) (w : World) → Consistent w → Consistent (record_trace env c w).1
unfolding record_trace
record_trace-Consistent env c w h = recorded (get c w).0 (get c w).1 (get-HandedOver c w h).1
  where
    recorded :
        (res : Result Taken) (w' : World)
        → Consistent w'
        → Consistent (continue res (write_taken env) w').1
    recorded (ok taken) w' h' = Consistent-Keeps w' _ (write_taken-Keeps env taken w') h'
    recorded (raised e) w' h' = h'

finished_mark :
    (env : Env) (ft : Option ℕ) (span : Span)
    → ((mark_finished env ft span).finished ≡ true)
      × ((mark_finished env ft span).context ≡ span.context)
unfolding mark_finished
finished_mark env ft span = (refl, refl)

pub finish-Consistent :
    (env : Env) (ft : Option ℕ) (r : ℕ) (w : World) → Consistent w → Consistent (finish env ft r w)
unfolding finish
finish-Consistent env ft r w h = elim (Bool-cases (w.spans r).finished) [
  | inl done ↦ simp done h
  | inr open_r ↦ simp open_r (closed open_r (w.spans r).context refl)
]
  where
    closed :
        (w.spans r).finished ≡ false
        → (o : Option ℕ) → (w.spans r).context ≡ o
        → Consistent (close_and_record env r o (on_span r (mark_finished env ft) w))
    closed open_r none own =
        mark-Consistent r (mark_finished env ft) w h open_r (finished_mark env ft (w.spans r)).0
          (finished_mark env ft (w.spans r)).1 own
    closed open_r (some c) own =
        let h' =
          close_span-Consistent r (mark_finished env ft) w h open_r
            (finished_mark env ft (w.spans r)).0 (finished_mark env ft (w.spans r)).1 c own in
        let w' = close_span c r (on_span r (mark_finished env ft) w) in
        elim (Bool-cases ((on_span r (mark_finished env ft) w).spans r).has_tracer) [
          | inl traced ↦ simp traced (record_trace-Consistent env c w' h')
          | inr untraced ↦ simp untraced h'
        ]

-- `configure` replaces parts of the tracer, and the heap of the samplers grows.
set_priority_sampling-Keeps :
    (choice : Option Bool) (w : World) → Keeps w (set_priority_sampling choice w)
unfolding set_priority_sampling
set_priority_sampling-Keeps choice w = elim (Bool-cases (is_false choice)) [
  | inl off ↦ simp off (on_tracer-Keeps (record w.tracer { priority_sampler = none }) w refl)
  | inr on ↦ simp on (elim (Bool-cases (is_some w.tracer.priority_sampler)) [
    | inl had ↦ simp had (Keeps-refl w)
    | inr new ↦ simp new record {
      spans = λ r. refl;
      contexts = λ c. refl;
      next_span = refl;
      next_context = refl;
      rest = refl;
    }
  ])
]

configure-Keeps : (env : Env) (args : ConfigureArgs) (w : World) → Keeps w (configure env args w)
unfolding configure
configure-Keeps env args w =
    let w₁ = on_tracer (λ t. record t { enabled = or_default args.enabled t.enabled }) w in
    let w₂ = set_priority_sampling args.priority_sampling w₁ in
    let t₃ = record w₂.tracer {
      sampler = link_sampler w₂.tracer.priority_sampler (or_default args.sampler w₂.tracer.sampler);
    } in
    let w₃ = record w₂ { tracer = t₃ } in
    let kept : Keeps w w₃ = Keeps-trans (on_tracer-Keeps w₁.tracer w refl) (
      Keeps-trans (set_priority_sampling-Keeps args.priority_sampling w₁)
        (on_tracer-Keeps t₃ w₂ refl)) in
    elim (Bool-cases (args.has_filters || is_some args.priority_sampling || args.has_api)) [
      | inl new ↦ simp new (
          Keeps-trans kept
            (on_tracer-Keeps (record t₃ { writer = some (agent_writer env.pid) }) w₃ refl))
      | inr old ↦ simp old kept
    ]

-- One call of the program: what it is handed exists, and a context that it makes, or a propagator
-- for it, has no spans.
pub data Step (w : World) : World → Type 0 where
  starts :
      (env : Env) (args : StartArgs) (child_of : ChildOf)
      → Known child_of w
      → Step w (start_span env args child_of w).1
  traces : (env : Env) (args : StartArgs) → Step w (trace env args w).1
  finishes : (env : Env) (finish_time : Option ℕ) (r : ℕ) → Step w (finish env finish_time r w)
  tags : (r : ℕ) (tags : Dict Value) → Step w (set_tags r tags w).1
  measures : (r : ℕ) (key : String) (value : Value) → Step w (on_span r (set_metric key value) w)
  fails : (r : ℕ) (exc : ExcInfo) → Step w (set_exc_info r exc w).1
  recovers : (r : ℕ) → Step w (on_span r remove_exc_info w)
  makes :
      (context : Context)
      → context.trace ≡ []
      → context.finished_spans ≡ 0
      → Step w (alloc_context context w).1
  activates : (c : ℕ) → c < w.next_context → Step w (activate (some c) w)
  takes : (c : ℕ) → Step w (get c w).1
  configures : (env : Env) (args : ConfigureArgs) → Step w (configure env args w)

pub data Reach (w : World) : World → Type 0 where
  here : Reach w w
  next : {u v : World} → Reach w u → Step u v → Reach w v

activate-Consistent :
    (c : ℕ) (w : World) → c < w.next_context → Consistent w → Consistent (activate (some c) w)
unfolding activate
activate-Consistent c w known h = record {
  counted = h.counted;
  owned = h.owned;
  listed = h.listed;
  distinct = h.distinct;
  fresh_spans = h.fresh_spans;
  fresh_contexts = h.fresh_contexts;
  unused_contexts = h.unused_contexts;
  active_known = λ d e. let same : some c ≡ some d = e in ground (arith, same);
}

Post-Consistent :
    (x : Result ℕ × World) → Post (λ r w'. (c : ℕ) × Started c r w') x → Consistent x.1
Post-Consistent (ok r, w) p = p.1.consistent
Post-Consistent (raised e, w) p = p

-- The context of the provider exists, and is the active one.
call_context-Known :
    (w : World) (o : Option ℕ)
    → w.tracer.active_context ≡ o
    → Consistent w
    → Post (λ c w'. Consistent w' × (c < w'.next_context)) (call_context o w)
unfolding call_context alloc_context activate
call_context-Known w (some c) e h = (h, h.active_known c e)
call_context-Known w none e h = (
  activate-Consistent w.next_context (alloc_context empty_context w).1 (omega arith)
      (alloc_context-Consistent empty_context w refl refl h),
  omega arith,
)

trace-Consistent :
    (env : Env) (args : StartArgs) (w : World) → Consistent w → Consistent (trace env args w).1
unfolding trace get_call_context
trace-Consistent env args w h =
    started (call_context w.tracer.active_context w)
      (call_context-Known w w.tracer.active_context refl h)
  where
    started :
        (x : Result ℕ × World)
        → Post (λ c w'. Consistent w' × (c < w'.next_context)) x
        → Consistent (continue x.0 (λ c. start_span env args (of_context c)) x.1).1
    started (ok c, w') p =
        Post-Consistent (start_span env args (of_context c) w')
          (start_span-Started env args (of_context c) w' p.0 p.1)
    started (raised e, w') p = p

Step-Consistent : {w w' : World} → Step w w' → Consistent w → Consistent w'
Step-Consistent {w} (starts env args child_of known) h =
    Post-Consistent (start_span env args child_of w)
      (start_span-Started env args child_of w h known)
Step-Consistent {w} (traces env args) h = trace-Consistent env args w h
Step-Consistent {w} (finishes env finish_time r) h = finish-Consistent env finish_time r w h
Step-Consistent {w} (tags r values) h = Consistent-Keeps w _ ((set_tags-Kept r values).at w) h
Step-Consistent {w} (measures r key value) h =
    Consistent-Keeps w _ (on_span-Keeps r _ w (identity-set_metric key value (w.spans r))) h
Step-Consistent {w} (fails r exc) h = Consistent-Keeps w _ ((set_exc_info-Kept r exc).at w) h
Step-Consistent {w} (recovers r) h =
    Consistent-Keeps w _ (on_span-Keeps r _ w (identity-remove_exc_info (w.spans r))) h
Step-Consistent {w} (makes context empty zero_count) h =
    alloc_context-Consistent context w empty zero_count h
Step-Consistent {w} (activates c known) h = activate-Consistent c w known h
Step-Consistent {w} (takes c) h = (get-HandedOver c w h).1
Step-Consistent {w} (configures env args) h = Consistent-Keeps w _ (configure-Keeps env args w) h

-- From contexts and spans that agree, every sequence of calls that start, tag, measure, finish
-- and take spans, set and remove their errors, make and activate contexts and configure the tracer,
-- each at any time and with any readings and arguments, returning or raising, leads to contexts and
-- spans that agree.
pub Reach-Consistent : {w w' : World} → Consistent w → Reach w w' → Consistent w'
Reach-Consistent h here = h
Reach-Consistent h (next before step) = Step-Consistent step (Reach-Consistent h before)
