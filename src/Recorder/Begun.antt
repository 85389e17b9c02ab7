-- ===== src/Recorder/Begun.antt =====
-- oteltrace/tracer.py: `trace` in an active context.
use opentelemetry_auto_instr.Common.{ℕ, ◌≡◌, refl, ◌<◌, sym, some}
use mathlib.Core.Path.{subst}
use opentelemetry_auto_instr.World.{World, Env}
use opentelemetry_auto_instr.Context.Consistent.{Consistent}
use opentelemetry_auto_instr.Tracer.{StartArgs, of_context, start_span}
use opentelemetry_auto_instr.Recorder.{call_context, get_call_context, trace}
use opentelemetry_auto_instr.Recorder.Invariant.{here, next, starts, Reach-Consistent}

-- `trace` starts a span in the active context.
pub trace-start_span :
    (env : Env) (args : StartArgs) (c : ℕ) (w : World)
    → w.tracer.active_context ≡ some c
    → trace env args w ≡ start_span env args (of_context c) w
unfolding trace get_call_context call_context
trace-start_span env args c w e = rw e refl

pub trace-Consistent :
    (env : Env) (args : StartArgs) (c : ℕ) (w : World)
    → w.tracer.active_context ≡ some c
    → c < w.next_context
    → Consistent w
    → Consistent (trace env args w).1
trace-Consistent env args c w e known h =
    subst (λ x. Consistent x.1) (sym (trace-start_span env args c w e))
      (Reach-Consistent h (next here (starts env args (of_context c) known)))
