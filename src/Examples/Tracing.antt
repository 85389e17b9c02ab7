-- ===== src/Examples/Tracing.antt =====
-- The theorems on contexts, tracers and finished spans at concrete worlds.
use opentelemetry_auto_instr.Common.{ℕ, pos, ◌≡◌, refl, arith, true, false, none, some, [], ◌∷◌, ok}
use opentelemetry_auto_instr.Sampler.{RateSampler, set_sample_rate, rated}
use opentelemetry_auto_instr.Writer.{agent_writer, write}
use opentelemetry_auto_instr.World.{World}
use opentelemetry_auto_instr.Context.{get, is_sampled}
use opentelemetry_auto_instr.Context.Consistent.{Consistent}
use opentelemetry_auto_instr.Context.Left.{HandedOver}
use opentelemetry_auto_instr.Context.Taking.{get-HandedOver}
use opentelemetry_auto_instr.Tracer.{StartArgs, of_nothing, of_span, of_context, start_span}
use opentelemetry_auto_instr.Tracer.Keeps.{Post, Started, start_span-Started}
use opentelemetry_auto_instr.Tracer.Parents.{Inherits, child-Inherits}
use opentelemetry_auto_instr.Tracer.Roots.{Begins, start_span-Begins}
use opentelemetry_auto_instr.Recorder.{finish}
use opentelemetry_auto_instr.Recorder.Invariant.{here, next, starts, finishes, Reach-Consistent}
use opentelemetry_auto_instr.Recorder.Complete.{finish_last}
use opentelemetry_auto_instr.Recorder.Again.{finish_twice}
use opentelemetry_auto_instr.Examples.{readings, idle, idle-Consistent, solo, solo-Consistent}

abbrev request : StartArgs
request = record { name = "web.request"; service = some "web"; resource = none; span_type = none }

-- A span is started in a new context, and finished.
abbrev after_start : World
after_start = (start_span readings request of_nothing idle).1

Reach-Consistent_example : Consistent (finish readings none 0 after_start)
Reach-Consistent_example =
    Reach-Consistent idle-Consistent
      (next (next here (starts readings request of_nothing tt)) (finishes readings none 0))

start_span-Started_example :
    Post
      (λ r w. (c : ℕ) × Started c r w)
      (start_span readings request (of_context 0) (solo false 0))
start_span-Started_example =
    start_span-Started readings request (of_context 0) (solo false 0) (solo-Consistent false)
      (omega arith)

child-Inherits_example :
    ((start_span readings request (of_span 0) (solo false 0)).0 ≡ ok 1)
    × Inherits readings request
        (solo false 0)
        0
        0
        1
        (start_span readings request (of_span 0) (solo false 0)).1
child-Inherits_example = child-Inherits readings request 0 0 (solo false 0) refl refl tt

-- The tracer keeps half of the traces, and a request begins one in an empty context.
abbrev half : RateSampler
half = set_sample_rate (record { num = pos 1; den = 2 })

abbrev halving : World
halving = record idle {
  tracer = record idle.tracer { sampler = rated half; has_runtime_worker = true };
  next_context = 1;
}

start_span-Begins_example :
    ((start_span readings request (of_context 0) halving).0 ≡ ok 0)
    × Begins readings request halving half 0 0
        (start_span readings request (of_context 0) halving).1
start_span-Begins_example = start_span-Begins readings request half 0 halving refl refl refl refl tt

get-HandedOver_example :
    HandedOver 0 (solo true 1) (get 0 (solo true 1)) × Consistent (get 0 (solo true 1)).1
get-HandedOver_example = get-HandedOver 0 (solo true 1) (solo-Consistent true)

finish_last_example :
    ((finish readings none 0 (solo false 0)).tracer.writer
      ≡ some (write 42 3 (0 ∷ []) (agent_writer 42)))
    × (((finish readings none 0 (solo false 0)).contexts 0).trace ≡ [])
unfolding is_sampled
finish_last_example =
    finish_last readings none 0 0 (solo false 0) (agent_writer 42) (solo-Consistent false) refl refl
      refl refl refl (refl, tt)

finish_twice_example :
    finish readings (some 9500) 0 (finish readings none 0 (solo false 0))
    ≡ finish readings none 0 (solo false 0)
finish_twice_example =
    finish_twice readings none 0 (solo false 0) (solo-Consistent false) readings (some 9500)
