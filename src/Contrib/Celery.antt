-- ===== src/Contrib/Celery.antt =====
-- oteltrace/contrib/celery/signals.py, utils.py: the spans of tasks, from one signal to the next. Tasks
-- are numbers. An entry of the dict that a task holds is weak; a span that is not finished stands in the
-- trace of its context, so that its entry stays, and here every entry stays until it is detached.
mod Spans
pub mod Retained
pub mod Signals
mod Tests
unfoldable pub use Spans.*
use Prim.Native.String.{◌++◌}
use opentelemetry_auto_instr.Common.{
  ℕ, ◌==◌, zero, suc, ℤ, pos, Bool, true, false, not, ◌&&◌, ◌||◌, Option, none, some, String, List,
  [], ◌∷◌, Dict, lookup, insert, Error, Result, ok, raised, Exec, ◌>>=◌, ◌>>◌, pure, modify, gets,
  str_eq, if◌then◌else◌,
}
use opentelemetry_auto_instr.Value.{
  Number, whole, fraction, Value, none_value, text, number, object,
}
use opentelemetry_auto_instr.World.{World, Env, update}
use opentelemetry_auto_instr.Span.{ExcInfo, set_tag, set_tags, set_exc_info}
use opentelemetry_auto_instr.Tracer.{StartArgs}
use opentelemetry_auto_instr.Recorder.{trace, finish}
use opentelemetry_auto_instr.Pin.{Pins, get_from}

-- What the handlers read from outside: the clock and ids, the settings of the integration, the names and
-- applications of tasks, and what a value and a text are.
pub record Broker : Type 0 where
  pub env : Env
  pub worker_service : String
  pub producer_service : String
  pub app_of : ℕ → ℕ
  pub name_of : ℕ → String
  pub is_no_limit : Value → Bool
  pub as_float : String → Option Number

abbrev pub on_world : {A : Type 0} → Exec World A → Exec Worker A
on_world m s = let (res, w) = m s.tracing in (res, record s { tracing = w })

abbrev pub or_app : ℕ → Option ℕ × Pins → Option ℕ × Pins
or_app app (some q, s) = (some q, s)
or_app app (none, s) = get_from app s

-- `Pin.get_from(task) or Pin.get_from(task.app)`
pub task_pin : Broker → ℕ → Exec Worker (Option ℕ)
task_pin b task s =
    let (q, pins) = or_app (b.app_of task) (get_from task s.pins) in
    (ok q, record s { pins = pins })

-- The sender of a signal and the id of the task, where they are given.
abbrev pub Sender : Type 0
Sender = Option ℕ × Option String

abbrev pub given : Sender → (ℕ → String → Exec Worker Unit) → Exec Worker Unit
given (some task, some task_id) handler = handler task task_id
given (none, task_id) handler = pure tt
given (some task, none) handler = pure tt

abbrev pub run_args : Broker → ℕ → StartArgs
run_args b task = record {
  name = "celery.run";
  service = some b.worker_service;
  resource = some (b.name_of task);
  span_type = some "worker";
}

abbrev pub run_pinned : Broker → ℕ → String → Option ℕ → Exec Worker Unit
run_pinned b task task_id none = pure tt
run_pinned b task task_id (some q) = do
  r ← on_world (trace b.env (run_args b task))
  modify (attach_span task task_id r false)

-- `trace_prerun`
pub trace_prerun : Broker → Sender → Exec Worker Unit
trace_prerun b sender =
    given sender (λ task task_id. do q ← task_pin b task; run_pinned b task task_id q)

abbrev pub run_done : Broker → Dict Value → Dict Value → ℕ → String → Option ℕ → Exec Worker Unit
run_done b kwargs request task task_id none = pure tt
run_done b kwargs request task task_id (some r) = do
  on_world (set_tag r "celery.action" (text "run" none))
  on_world (set_tags r (tags_from_context b.is_no_limit kwargs))
  on_world (set_tags r (tags_from_context b.is_no_limit request))
  on_world (modify (finish b.env none r))
  modify (detach_span task task_id false)

-- `trace_postrun`, with the arguments of the signal and the request of the task
pub trace_postrun : Broker → Sender → Dict Value → Dict Value → Exec Worker Unit
trace_postrun b sender kwargs request = given sender (λ task task_id. do
  r ← gets (retrieve_span task task_id false)
  run_done b kwargs request task task_id r)

abbrev pub publish_args : Broker → String → StartArgs
publish_args b task_name = record {
  name = "celery.apply";
  service = some b.producer_service;
  resource = some task_name;
  span_type = none;
}

abbrev pub publish_pinned : Broker → String → Dict Value → ℕ → String → Option ℕ → Exec Worker Unit
publish_pinned b task_name kwargs task task_id none = pure tt
publish_pinned b task_name kwargs task task_id (some q) = do
  r ← on_world (trace b.env (publish_args b task_name))
  on_world (set_tag r "celery.action" (text "apply_async" none))
  on_world (set_tag r "celery.id" (text task_id (b.as_float task_id)))
  on_world (set_tags r (tags_from_context b.is_no_limit kwargs))
  modify (attach_span task task_id r true)

-- `trace_before_publish`: the task is that of the registry under the name
pub trace_before_publish : Broker → String → Sender → Dict Value → Exec Worker Unit
trace_before_publish b task_name sender kwargs =
    given sender
      (λ task task_id. do q ← task_pin b task; publish_pinned b task_name kwargs task task_id q)

abbrev pub publish_done : Broker → ℕ → String → Option ℕ → Exec Worker Unit
publish_done b task task_id none = pure tt
publish_done b task task_id (some r) = do
  on_world (modify (finish b.env none r))
  modify (detach_span task task_id true)

-- `trace_after_publish`
pub trace_after_publish : Broker → Sender → Exec Worker Unit
trace_after_publish b sender =
    given sender
      (λ task task_id. do r ← gets (retrieve_span task task_id true); publish_done b task task_id r)

abbrev pub failed : Option (ExcInfo × Bool) → Option ℕ → Exec Worker Unit
failed exc none = pure tt
failed none (some r) = pure tt
failed (some (exc, is_expected)) (some r) =
    if is_expected then pure tt else on_world (set_exc_info r exc)

-- `trace_failure`: the exception, if it is given, and whether it is one that the task `throws`
pub trace_failure : Sender → Option (ExcInfo × Bool) → Exec Worker Unit
trace_failure sender exc =
    given sender (λ task task_id. do r ← gets (retrieve_span task task_id false); failed exc r)

abbrev pub retried : Broker → String → Option ℕ → Exec Worker Unit
retried b reason none = pure tt
retried b reason (some r) =
    on_world (set_tag r "celery.retry.reason" (text reason (b.as_float reason)))

abbrev pub reasoned : Broker → Option String → Option ℕ → Exec Worker Unit
reasoned b none r = pure tt
reasoned b (some reason) r = retried b reason r

-- `trace_retry`: the id is that of the request's context; the reason as text, if it counts as true
pub trace_retry : Broker → Sender → Option String → Exec Worker Unit
trace_retry b sender reason =
    given sender
      (λ task task_id. do r ← gets (retrieve_span task task_id false); reasoned b reason r)
