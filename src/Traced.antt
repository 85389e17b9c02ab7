-- ===== src/Traced.antt =====
-- Code that runs in a span: oteltrace/span.py, a span as a context manager, and oteltrace/tracer.py,
-- `wrap`. The program around the tracer is the state of the code that runs; what that code does to it
-- and to the tracer is an action on both.
pub mod Wrapped
mod Tests
use opentelemetry_auto_instr.Common.{
  ℕ, Bool, Option, none, some, String, [], ◌∷◌, Dict, str_eq, Result, ok, raised, Error, Exec,
  if◌then◌else◌,
}
use opentelemetry_auto_instr.Value.{Number, Value, text}
use opentelemetry_auto_instr.World.{World, Env}
use opentelemetry_auto_instr.Span.{ExcInfo, set_exc_info}
use opentelemetry_auto_instr.Tracer.{StartArgs}
use opentelemetry_auto_instr.Recorder.{trace, finish}
use opentelemetry_auto_instr.Pin.{Pin, Pins, get_from}

-- The tracer's objects, the pins, and the rest of the program.
pub record Program (X : Type 0) : Type 0 where
  pub tracing : World
  pub pins : Pins
  pub rest : X

-- What a span reads at its start and at its end, how `sys.exc_info()` shows an exception, and what
-- `float` makes of a text.
pub record Readings : Type 0 where
  pub at_start : Env
  pub at_end : Env
  pub exc_info : Error → ExcInfo
  pub as_float : String → Option Number

-- `Span.__exit__`, where what is raised is caught: `finish` is not called after that.
abbrev finished_after : Env → ℕ → Result (Unit {0}) × World → World
finished_after env r (ok u, w) = finish env none r w
finished_after env r (raised e, w) = w

pub exit_span : Env → ℕ → Option ExcInfo → World → World
exit_span env r none w = finish env none r w
exit_span env r (some exc) w = finished_after env r (set_exc_info r exc w)

module _ {A : Type 0} where
  abbrev pub exc_of : (Error → ExcInfo) → Result A → Option ExcInfo
  exc_of exc_info (ok a) = none
  exc_of exc_info (raised e) = some (exc_info e)

  -- what a `try` ends with, from what its body and its `finally` end with
  abbrev pub after_all : Result A → Result (Unit {0}) → Result A
  after_all res (ok u) = res
  after_all res (raised e) = raised e

module _ {X A : Type 0} where
  -- An action of the tracer alone, of the pins alone, and of the rest alone.
  abbrev pub on_tracing : Exec World A → Exec (Program X) A
  on_tracing m p = let (res, w) = m p.tracing in (res, record p { tracing = w })

  abbrev pub on_pins : (Pins → A × Pins) → Exec (Program X) A
  on_pins m p = let (a, s) = m p.pins in (ok a, record p { pins = s })

  abbrev pub on_rest : Exec X A → Exec (Program X) A
  on_rest m p = let (res, x) = m p.rest in (res, record p { rest = x })

  -- The span is left, and the result or the exception goes on, since `__exit__` returns None.
  abbrev pub left : Readings → ℕ → Result A × Program X → Result A × Program X
  left at r (res, p) =
      (res, record p { tracing = exit_span at.at_end r (exc_of at.exc_info res) p.tracing })

  abbrev pub entered :
      Readings → (ℕ → Exec (Program X) A) → Result ℕ × World → Program X → Result A × Program X
  entered at body (raised e, w) p = (raised e, record p { tracing = w })
  entered at body (ok r, w) p = left at r (body r (record p { tracing = w }))

  -- `with tracer.trace(...) as span:`
  unfoldable pub with_span : Readings → StartArgs → (ℕ → Exec (Program X) A) → Exec (Program X) A
  with_span at args body p = entered at body (trace at.at_start args p.tracing) p

  -- `try: ... finally: ...`
  abbrev pub try_finally : Exec (Program X) A → Exec (Program X) Unit → Exec (Program X) A
  try_finally m k p = let (res, p') = m p in let (res', p'') = k p' in (after_all res res', p'')

  -- What `wrap` makes of a function: `executor` is the one that the tracer is configured with.
  pub wrapped :
      Readings → StartArgs → Option (Exec (Program X) A) → Exec (Program X) A → Exec (Program X) A
  unfolding with_span
  wrapped at args (some executor) f = executor
  wrapped at args none f = with_span at args (λ r. f)

-- The span of `wrap`, named for the function unless a name is given.
pub wrap_args : Option String → String → StartArgs → StartArgs
wrap_args none function_name args = record args { name = function_name }
wrap_args (some name) function_name args = record args {
  name = if str_eq name "" then function_name else name;
}

-- `if not pin or not pin.enabled()`: the pin of an object if it is there and its tracer, the one that
-- is modelled, is enabled
abbrev pub enabled_of : Bool → Option ℕ × Pins → Option Pin
enabled_of enabled (none, s) = none
enabled_of enabled (some q, s) = if enabled then some (s.pins q) else none

unfoldable pub enabled_pin : {X : Type 0} → ℕ → Exec (Program X) (Option Pin)
enabled_pin obj p =
    let found = get_from obj p.pins in
    (ok (enabled_of p.tracing.tracer.enabled found), record p { pins = found.1 })

-- texts as the values of tags
unfoldable pub text_values : (String → Option Number) → Dict String → Dict Value
text_values as_float [] = []
text_values as_float ((key, s) ∷ tags) = (key, text s (as_float s)) ∷ text_values as_float tags

-- `span.set_tags(pin.tags)`, which is nothing for tags that are None
abbrev pub pin_tags : (String → Option Number) → Pin → Dict Value
pin_tags as_float pin = elim pin.tags [ none ↦ [] | some tags ↦ text_values as_float tags ]
