-- ===== src/Contrib/Celery/Tests.antt =====
-- oteltrace/contrib/celery/ at concrete signals, and its theorems applied to them.
use opentelemetry_auto_instr.Common.{
  ℕ, ◌≡◌, ◌≢◌, refl, ◌==◌, none, some, [], ◌∷◌, true, false, ok, pos, Dict, lookup, insert,
  if◌then◌else◌,
}
use opentelemetry_auto_instr.World.Keeps.{identity}
use opentelemetry_auto_instr.Value.{Value, text, number, object, whole}
use opentelemetry_auto_instr.Pin.{Pins, service_key, get_from, found, first_attached}
use opentelemetry_auto_instr.Recorder.{trace}
use opentelemetry_auto_instr.Contrib.Celery.{
  Worker, Broker, get_span, retrieve_span, add_tags, is_skipped, tags_from_context, trace_postrun,
  trace_before_publish, task_pin, publish_args, run_args,
}
use opentelemetry_auto_instr.Contrib.Celery.Signals.{
  Holds, trace_postrun-Finishes, trace_before_publish-Retains,
}
use opentelemetry_auto_instr.Examples.{readings}
use opentelemetry_auto_instr.Examples.Ready.{ready, ready_traces, ready-Consistent_trace}

abbrev broker : Broker
broker = record {
  env = readings;
  worker_service = "celery-worker";
  producer_service = "celery-producer";
  app_of = λ t. 9;
  name_of = λ t. "tasks.add";
  is_no_limit = λ v. true;
  as_float = λ s. none;
}

abbrev context : Dict Value
context =
    ("id", text "a1" none)
    ∷ ("retries", number (whole (pos 0)) "0")
    ∷ ("timelimit", object none (some "(None, None)"))
    ∷ ("origin", text "host" none)
    ∷ []

tags :
    tags_from_context broker.is_no_limit context
    ≡ (("celery.id", text "a1" none) ∷ ("celery.hostname", text "host" none) ∷ [])
unfolding tags_from_context add_tags is_skipped lookup insert
tags = refl

-- the pin stands on the application, object 9
abbrev pins : Pins
pins = record {
  pins = λ q. record {
    app = some "celery";
    app_type = some "worker";
    tags = none;
    tracer = 0;
    target = some 9;
    config = 0;
  };
  next_pin = 1;
  configs = λ c. (service_key, some "celery-worker") ∷ [];
  next_config = 1;
  attached = λ o. if o == 9 then some 0 else none;
  classes = λ o. [];
  is_frozen = λ o. false;
  is_truthy = λ o. true;
  default_tracer = 0;
}

-- task 2 runs under the id a1, in span 0
abbrev running : Worker
running = record {
  tracing = (trace readings (run_args broker 2) ready).1;
  pins = pins;
  dicts = λ t. if t == 2 then some ((("a1", false), 0) ∷ []) else none;
}

trace_postrun-Finishes_example :
    let x = trace_postrun broker (some 2, some "a1") context [] running in
    (x.0 ≡ ok tt)
    × ((x.1.tracing.spans 0).finished ≡ true)
    × ((q : ℕ) → 0 ≢ q → identity (x.1.tracing.spans q) ≡ identity (running.tracing.spans q))
    × Holds 2 "a1" false none running x.1
unfolding retrieve_span get_span
trace_postrun-Finishes_example =
    trace_postrun-Finishes broker 2 "a1" context [] running 0 refl
      (ready-Consistent_trace (run_args broker 2))

abbrev publishing : Worker
publishing = record running { tracing = ready }

trace_before_publish-Retains_example :
    let x = trace_before_publish broker "tasks.add" (some 2, some "a1") context publishing in
    (x.0 ≡ ok tt) × Holds 2 "a1" true (some 0) publishing x.1
unfolding task_pin get_from found first_attached
trace_before_publish-Retains_example =
    trace_before_publish-Retains broker 2 "tasks.add" "a1" context publishing 0 0 refl
      (ready_traces (publish_args broker "tasks.add"))
