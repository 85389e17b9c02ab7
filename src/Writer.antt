-- ===== src/Writer.antt =====
-- oteltrace/internal/writer.py: the queue `Q` of finished traces, and the flush of `AgentWriter`.
-- A put is one step here: what the source does where another thread empties the queue between the
-- refused put and the lock is to put again. The sizes in bytes that the statistics add up, and the
-- statistics that are sent when `_ENABLE_STATS` is set, are left out.
pub mod Queue
pub mod Filtered
pub mod Flush
mod Tests
use opentelemetry_auto_instr.Common.{
  ℕ, zero, suc, ◌+◌, ◌*◌, ◌%◌, ◌==◌, Bool, true, false, ◌&&◌, ◌||◌, Option, none, some, String,
  List, [], ◌∷◌, ◌++◌, length, set, ltb, leb, Result, ok, raised, Exec, pure, raise, modify, ◌>>=◌,
  attribute_error, if◌then◌else◌,
}
use opentelemetry_auto_instr.Sampler.{SampleRate, RateByServiceSampler, set_sample_rate_by_service}
use opentelemetry_auto_instr.RateLimiter.{second}

abbrev pub max_traces : ℕ
max_traces = 1000

abbrev pub log_err_interval : ℕ
log_err_interval = 60 * second

-- `class Q`, with items that are lists
pub record Q (A : Type 0) : Type 0 where
  pub maxsize : ℕ
  pub queue : List (List A)
  pub dropped : ℕ
  pub accepted : ℕ
  pub accepted_lengths : ℕ

-- What `reset_stats` returns.
pub record Stats : Type 0 where
  pub dropped : ℕ
  pub accepted : ℕ
  pub accepted_lengths : ℕ

module _ {A : Type 0} where
  pub empty_queue : ℕ → Q A
  empty_queue maxsize = record {
    maxsize = maxsize;
    queue = [];
    dropped = 0;
    accepted = 0;
    accepted_lengths = 0;
  }

  pub update_stats : List A → Q A → Q A
  update_stats item q = record q {
    accepted = q.accepted + 1;
    accepted_lengths = q.accepted_lengths + length item;
  }

  -- `Queue.put(self, item, block=False)` raises `Full`.
  pub is_full : Q A → Bool
  is_full q = ltb 0 q.maxsize && leb q.maxsize (length q.queue)

  -- `Q.put`; `slot` is the random number behind `random.randrange(0, qsize)`.
  pub put : ℕ → List A → Q A → Q A
  unfolding is_full update_stats
  put slot item q =
      if is_full q
      then update_stats item
          (record q { queue = set q.queue (slot % length q.queue) item; dropped = q.dropped + 1 })
      else update_stats item (record q { queue = q.queue ++ item ∷ [] })

  -- `Q.get(block=False)`: everything at once, or `Empty`
  pub get : Q A → Option (List (List A)) × Q A
  get q = elim q.queue [ [] ↦ (none, q) | x ∷ xs ↦ (some (x ∷ xs), record q { queue = [] }) ]

  pub reset_stats : Q A → Stats × Q A
  reset_stats q = (
    record { dropped = q.dropped; accepted = q.accepted; accepted_lengths = q.accepted_lengths },
    record q { dropped = 0; accepted = 0; accepted_lengths = 0 },
  )

-- `class AgentWriter`; the priority sampler is the tracer's, and the API and the filters are
-- arguments of the flush.
pub record AgentWriter (A : Type 0) : Type 0 where
  pub pid : ℕ
  pub trace_queue : Q A
  pub last_error_ts : ℕ

-- What the agent answers to a request: an exception of the connection, or a response with a status
-- and the rates of its JSON body, if it has any.
pub data Response : Type 0 where
  failed : Response
  answered : ℕ → Option (List (String × SampleRate)) → Response

-- A filter's `process_trace`, which may raise.
abbrev pub Filter : Type 0 → Type 0
Filter A = List A → Result (Option (List A))

-- `self.api.send_traces`, over the state S of the agent and of the connection to it: it may raise. A
-- writer may have no API.
abbrev pub SendTraces : Type 0 → Type 0 → Type 0
SendTraces S A = List (List A) → Exec S (List Response)

module _ {A : Type 0} where
  -- `AgentWriter._reset_queue`
  pub reset_queue : ℕ → AgentWriter A → AgentWriter A
  unfolding empty_queue
  reset_queue pid writer = record writer { pid = pid; trace_queue = empty_queue max_traces }

  -- `AgentWriter(...)`
  pub agent_writer : ℕ → AgentWriter A
  unfolding empty_queue
  agent_writer pid = record { pid = pid; trace_queue = empty_queue max_traces; last_error_ts = 0 }

  put_spans : ℕ → List A → AgentWriter A → AgentWriter A
  put_spans slot [] writer = writer
  put_spans slot (span ∷ spans) writer = record writer {
    trace_queue = put slot (span ∷ spans) writer.trace_queue;
  }

  -- `AgentWriter.write`, in the process `pid`: a fork starts with an empty queue.
  pub write : ℕ → ℕ → List A → AgentWriter A → AgentWriter A
  unfolding put_spans reset_queue
  write pid slot spans writer =
      put_spans slot spans (if writer.pid == pid then writer else reset_queue pid writer)

  -- The inner loop of `_apply_filters`, with its `break`.
  pub filter_trace : List (Filter A) → List A → Result (Option (List A))
  filter_trace [] trace = ok (some trace)
  filter_trace (filtr ∷ filters) trace = elim (filtr trace) [
    | raised e ↦ raised e
    | ok none ↦ ok none
    | ok (some trace') ↦ filter_trace filters trace'
  ]

  abbrev pub collect : Option (List A) → Result (List (List A)) → Result (List (List A))
  collect none rest = rest
  collect (some trace) (ok traces) = ok (trace ∷ traces)
  collect (some trace) (raised e) = raised e

  pub filter_all : List (Filter A) → List (List A) → Result (List (List A))
  filter_all filters [] = ok []
  filter_all filters (trace ∷ traces) =
      let rest = filter_all filters traces in
      elim (filter_trace filters trace) [ raised e ↦ raised e | ok kept ↦ collect kept rest ]

  -- `AgentWriter._apply_filters`
  pub apply_filters : Option (List (Filter A)) → List (List A) → Result (List (List A))
  apply_filters none traces = ok traces
  apply_filters (some filters) traces = filter_all filters traces

  -- `_log_error_status`: whether the line is an error or a debug line, and the time of the last error
  pub log_error_status : ℕ → AgentWriter A → Bool × AgentWriter A
  log_error_status now writer =
      if ltb (writer.last_error_ts + log_err_interval) now
      then (true, record writer { last_error_ts = now })
      else (false, writer)

  -- One response in the loop of `flush_queue`.
  pub handle_response :
      ℕ
      → Response
      → AgentWriter A × Option RateByServiceSampler
      → AgentWriter A × Option RateByServiceSampler
  handle_response now failed (writer, sampler) = ((log_error_status now writer).1, sampler)
  handle_response now (answered status rates) (writer, none) =
      (if leb 400 status then (log_error_status now writer).1 else writer, none)
  handle_response now (answered status none) (writer, some sampler) =
      (if leb 400 status then (log_error_status now writer).1 else writer, some sampler)
  handle_response now (answered status (some rates)) (writer, some sampler) =
      if leb 400 status
      then ((log_error_status now writer).1, some sampler)
      else (writer, some (set_sample_rate_by_service rates sampler))

  pub handle_responses :
      ℕ
      → List Response
      → AgentWriter A × Option RateByServiceSampler
      → AgentWriter A × Option RateByServiceSampler
  handle_responses now [] state = state
  handle_responses now (response ∷ responses) state =
      handle_responses now responses (handle_response now response state)

-- The writer, the priority sampler and the agent, during a flush.
pub record Flushing (S A : Type 0) : Type 0 where
  pub writer : AgentWriter A
  pub sampler : Option RateByServiceSampler
  pub agent : S

module _ {S A : Type 0} where
  on_agent : {B : Type 0} → Exec S B → Exec (Flushing S A) B
  on_agent m f = let (res, agent) = m f.agent in (res, record f { agent = agent })

  take_responses : ℕ → List Response → Flushing S A → Flushing S A
  take_responses now responses f =
      let (writer, sampler) = handle_responses now responses (f.writer, f.sampler) in
      record f { writer = writer; sampler = sampler }

  abbrev send_by : Option (SendTraces S A) → List (List A) → Exec (Flushing S A) (List Response)
  send_by none traces = raise attribute_error
  send_by (some send_traces) traces = on_agent (send_traces traces)

  -- What follows the filters: an error of theirs is logged, and the flush ends.
  send : Option (SendTraces S A) → ℕ → Result (List (List A)) → Exec (Flushing S A) Unit
  send api now (raised e) = pure tt
  send api now (ok traces) = do
    responses ← send_by api traces
    modify (take_responses now responses)

  flush_popped :
      Option (List (Filter A))
      → Option (SendTraces S A)
      → ℕ
      → Option (List (List A))
      → Exec (Flushing S A) Unit
  flush_popped filters api now none = pure tt
  flush_popped filters api now (some popped) = send api now (apply_filters filters popped)

  -- `AgentWriter.flush_queue`, at the time `now`
  pub flush_queue :
      Option (List (Filter A)) → Option (SendTraces S A) → ℕ → Exec (Flushing S A) Unit
  flush_queue filters api now f =
      let (popped, q) = get f.writer.trace_queue in
      flush_popped filters api now popped
        (record f { writer = record f.writer { trace_queue = q } })
