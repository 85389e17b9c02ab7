-- ===== src/Contrib/Passes.antt =====
-- What it means that an instrumented call is transparent: the program gets what the library's function gives.
use opentelemetry_auto_instr.Common.{ℕ, ◌≡◌, refl, Option, none, some, Result, ok, Exec, ◌>>◌, Dict}
use opentelemetry_auto_instr.Value.{Value}
use opentelemetry_auto_instr.World.{World}
use opentelemetry_auto_instr.Span.{set_tags}
use opentelemetry_auto_instr.Span.Plain.{Plain, set_tags-Settled}
use opentelemetry_auto_instr.Tracer.{StartArgs}
use opentelemetry_auto_instr.Recorder.{trace}
use opentelemetry_auto_instr.Pin.{Pin}
use opentelemetry_auto_instr.Traced.{
  Program, Readings, with_span, on_tracing, on_rest, try_finally, pin_tags,
}

-- The call ends as the function does, and leaves the rest of the program as the function does.
pub record Passes {X A : Type 0} (method : Exec X A) (x : X) (out : Result A × Program X)
    : Type 0 where
  pub result : out.0 ≡ (method x).0
  pub rest : out.1.rest ≡ (method x).1

module _ {X A : Type 0} (method : Exec X A) where
  pub on_rest-Passes : (p : Program X) → Passes method p.rest (on_rest method p)
  on_rest-Passes p = record { result = refl; rest = refl }

  -- A span around a call, where the tracer starts it, and the call is transparent in it.
  pub in_span-Passes :
      (at : Readings) (args : StartArgs) (body : ℕ → Exec (Program X) A) (p : Program X) (r : ℕ)
      → (trace at.at_start args p.tracing).0 ≡ ok r
      → Passes method p.rest (body r (record p { tracing = (trace at.at_start args p.tracing).1 }))
      → Passes method p.rest (with_span at args body p)
  unfolding with_span
  in_span-Passes at args body p r e k = rw e (record { result = k.result; rest = k.rest })

  pub with_span-Passes :
      (at : Readings) (args : StartArgs) (body : ℕ → Exec (Program X) A) (p : Program X) (r : ℕ)
      → (trace at.at_start args p.tracing).0 ≡ ok r
      → ((w : World) → Passes method p.rest (body r (record p { tracing = w })))
      → Passes method p.rest (with_span at args body p)
  with_span-Passes at args body p r e h =
      in_span-Passes at args body p r e (h (trace at.at_start args p.tracing).1)

  -- What the tracer does before the call, where it does not raise
  pub on_tracing-Passes :
      (m : Exec World Unit) (k : Exec (Program X) A) (p : Program X)
      → (m p.tracing).0 ≡ ok tt
      → ((w : World) → Passes method p.rest (k (record p { tracing = w })))
      → Passes method p.rest ((on_tracing m >> k) p)
  on_tracing-Passes m k p e h = rw e (h (m p.tracing).1)

  -- What the tracer does after the call, where it does not raise
  pub try_finally-Passes :
      (m : X → Exec World Unit) (p : Program X)
      → ((x : X) (w : World) → (m x w).0 ≡ ok tt)
      → Passes method p.rest (try_finally (on_rest method) (λ q. on_tracing (m q.rest) q) p)
  try_finally-Passes m p h =
      rw (h (method p.rest).1 p.tracing) (record { result = refl; rest = refl })

-- an action after one that returns
pub then_returns :
    (m k : Exec World Unit) (w : World)
    → (m w).0 ≡ ok tt
    → ((v : World) → (k v).0 ≡ ok tt)
    → ((m >> k) w).0 ≡ ok tt
then_returns m k w e h = rw e (h (m w).1)

pub set_tags_returns :
    (r : ℕ) (tags : Dict Value) (w : World) → Plain tags → (set_tags r tags w).0 ≡ ok tt
set_tags_returns r tags w plain = (set_tags-Settled r tags w plain).returns

-- What an instrumented call of an object with the pin, if it has one, needs of it: tags that choose no
-- sampling priority by hand, and a tracer that starts the span.
abbrev pub Traceable : Readings → (Pin → StartArgs) → World → Option Pin → Type 0
Traceable at args w none = Unit
Traceable at args w (some pin) =
    Plain (pin_tags at.as_float pin) × ((r : ℕ) × ((trace at.at_start (args pin) w).0 ≡ ok r))

-- The same without the tags, for a call that does not tag the span with those of the pin.
abbrev pub Startable : Readings → (Pin → StartArgs) → World → Option Pin → Type 0
Startable at args w none = Unit
Startable at args w (some pin) = (r : ℕ) × ((trace at.at_start (args pin) w).0 ≡ ok r)
