-- ===== src/Traced/Wrapped.antt =====
-- A span as a context manager: what runs in it is not disturbed, and the span is finished.
use opentelemetry_auto_instr.Common.{
  ℕ, ◌≡◌, refl, ap, Bool-cases, inl, inr, true, Option, none, some, Result, ok, Exec,
}
use opentelemetry_auto_instr.World.{World, Env}
use opentelemetry_auto_instr.Context.Consistent.{Consistent, Consistent-Keeps}
use opentelemetry_auto_instr.Span.{ExcInfo, set_exc_info, set_tag}
use opentelemetry_auto_instr.Span.Keeps.{set_exc_info-Kept}
use opentelemetry_auto_instr.Tracer.{StartArgs}
use opentelemetry_auto_instr.Recorder.{trace, finish}
use opentelemetry_auto_instr.Recorder.Again.{finished-finish}
use opentelemetry_auto_instr.Traced.{
  Program, Readings, exit_span, finished_after, exc_of, with_span,
}

set_exc_info_returns :
    (r : ℕ) (exc : ExcInfo) (w : World) → set_exc_info r exc w ≡ (ok tt, (set_exc_info r exc w).1)
unfolding set_exc_info set_tag
set_exc_info_returns r exc w = elim (Bool-cases exc.is_set) [
  | inl b ↦ rw b refl
  | inr b ↦ rw b refl
]

-- An exit is a finish, after the tags of an exception were set.
abbrev pub tagged : ℕ → Option ExcInfo → World → World
tagged r none w = w
tagged r (some exc) w = (set_exc_info r exc w).1

exit_span-finish :
    (env : Env) (r : ℕ) (o : Option ExcInfo) (w : World)
    → exit_span env r o w ≡ finish env none r (tagged r o w)
unfolding exit_span
exit_span-finish env r none w = refl
exit_span-finish env r (some exc) w = ap (finished_after env r) (set_exc_info_returns r exc w)

tagged-Consistent :
    (r : ℕ) (o : Option ExcInfo) (w : World) → Consistent w → Consistent (tagged r o w)
tagged-Consistent r none w h = h
tagged-Consistent r (some exc) w h = Consistent-Keeps w _ ((set_exc_info-Kept r exc).at w) h

pub finished-exit_span :
    (env : Env) (r : ℕ) (o : Option ExcInfo) (w : World)
    → Consistent w
    → ((exit_span env r o w).spans r).finished ≡ true
finished-exit_span env r o w h =
    rw (exit_span-finish env r o w)
      (finished-finish env none r (tagged r o w) (tagged-Consistent r o w h))

-- How a block ends, from how its body ended.
pub record Wrapped {X A : Type 0} (at : Readings) (r : ℕ) (inside : Result A × Program X)
    (out : Result A × Program X) : Type 0 where
  pub result : out.0 ≡ inside.0
  pub rest : out.1.rest ≡ inside.1.rest
  pub pins : out.1.pins ≡ inside.1.pins
  pub closed :
      out.1.tracing
      ≡ finish at.at_end none r (tagged r (exc_of at.exc_info inside.0) inside.1.tracing)
  pub finished : (out.1.tracing.spans r).finished ≡ true

-- A block that runs in a span, where the tracer starts the span `r` and the body leaves contexts and spans
-- that agree: it returns what the body returns or raises what it raises, with all that the body did; if
-- the body raised, the span is tagged with the exception; and the span is finished.
pub with_span-Wrapped :
    {X A : Type 0} (at : Readings) (args : StartArgs) (body : ℕ → Exec (Program X) A)
    (p : Program X) (r : ℕ)
    → (trace at.at_start args p.tracing).0 ≡ ok r
    → let inside = body r (record p { tracing = (trace at.at_start args p.tracing).1 }) in
      Consistent inside.1.tracing → Wrapped at r inside (with_span at args body p)
unfolding with_span
with_span-Wrapped at args body p r e h =
    let w = (trace at.at_start args p.tracing).1 in
    let inside = body r (record p { tracing = w }) in
    rw e (record {
      result = refl;
      rest = refl;
      pins = refl;
      closed = exit_span-finish at.at_end r (exc_of at.exc_info inside.0) inside.1.tracing;
      finished = finished-exit_span at.at_end r (exc_of at.exc_info inside.0) inside.1.tracing h;
    })
