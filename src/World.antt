-- ===== src/World.antt =====
-- The objects of oteltrace/span.py, oteltrace/context.py and oteltrace/tracer.py, which share one
-- another by reference: spans, contexts and service samplers stand in heaps, under the number that
-- they were allocated with. Times are in nanoseconds.
mod Heap
pub mod Keeps
pub use Heap.{update, update_self, update_other}
use opentelemetry_auto_instr.Common.{
  ℕ, zero, suc, ◌==◌, ℤ, pos, negsuc, Bool, true, false, Option, none, some, String, List, [], ◌∷◌,
  Dict, if◌then◌else◌,
}
use opentelemetry_auto_instr.Value.{Number, Value}
use opentelemetry_auto_instr.Writer.{AgentWriter}
use opentelemetry_auto_instr.Sampler.{RateByServiceSampler, Sampler}

-- `class Span`; `has_tracer` is whether its tracer is set, `context` and `parent` are references.
pub record Span : Type 0 where
  pub name : String
  pub service : Option String
  pub resource : String
  pub span_type : Option String
  pub meta : Dict String
  pub error : ℕ
  pub metrics : Dict Number
  pub start : ℕ
  pub duration : Option ℤ
  pub trace_id : ℤ
  pub span_id : ℤ
  pub parent_id : Option ℤ
  pub has_tracer : Bool
  pub sampled : Bool
  pub context : Option ℕ
  pub parent : Option ℕ
  pub finished : Bool

-- `class Context`; its trace and its current span are references to spans.
pub record Context : Type 0 where
  pub trace : List ℕ
  pub finished_spans : ℕ
  pub current_span : Option ℕ
  pub parent_trace_id : Option ℤ
  pub parent_span_id : Option ℤ
  pub sampling_priority : Option ℤ
  pub otel_origin : Option String

-- What the process is configured with: the class attributes of `Context`, `config`, and the name
-- that `hostname.get_hostname()` returns.
pub record Settings : Type 0 where
  pub partial_flush_enabled : Bool
  pub partial_flush_min_spans : ℕ
  pub report_hostname : Bool
  pub hostname : String

-- `class Tracer`. The attribute `writer` is missing until `configure` is given an API, filters or a
-- choice of priority sampling.
pub record Tracer : Type 0 where
  pub enabled : Bool
  pub sampler : Sampler
  pub priority_sampler : Option ℕ
  pub writer : Option (AgentWriter ℕ)
  pub has_runtime_worker : Bool
  pub tags : Dict Value
  pub services : List String
  pub pid : ℕ
  pub active_context : Option ℕ

pub record World : Type 0 where
  pub spans : ℕ → Span
  pub next_span : ℕ
  pub contexts : ℕ → Context
  pub next_context : ℕ
  pub service_samplers : ℕ → RateByServiceSampler
  pub next_sampler : ℕ
  pub settings : Settings
  pub tracer : Tracer

-- What one call reads from outside: the clock, the two clock readings of the rate limiter, the
-- random bits of new ids, the process, and the slot that a full queue overwrites.
pub record Env : Type 0 where
  pub now : ℕ
  pub refill : ℕ
  pub count : ℕ
  pub fresh_trace_id : ℤ
  pub fresh_span_id : ℤ
  pub pid : ℕ
  pub slot : ℕ

unfoldable pub on_span : ℕ → (Span → Span) → World → World
on_span r f w = record w { spans = update w.spans r (f (w.spans r)) }

unfoldable pub on_context : ℕ → (Context → Context) → World → World
on_context c f w = record w { contexts = update w.contexts c (f (w.contexts c)) }
