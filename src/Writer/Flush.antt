-- ===== src/Writer/Flush.antt =====
-- oteltrace/internal/writer.py: what a flush sends, and what it does with the responses.
use opentelemetry_auto_instr.Common.{
  ℕ, ◌≡◌, ◌≢◌, refl, ap, String, ◌∙◌, leb, Bool-cases, inl, inr, modify, continue, attribute_error,
  if◌then◌else◌, Option, none, some, List, [], ◌∷◌, arith, Result, ok, raised, Error,
}
use opentelemetry_auto_instr.Sampler.{SampleRate, RateByServiceSampler, set_sample_rate_by_service}
use opentelemetry_auto_instr.Writer.{
  Q, AgentWriter, Filter, apply_filters, Response, failed, answered, log_error_status,
  handle_response, handle_responses, SendTraces, Flushing, on_agent, take_responses, flush_queue,
  flush_popped, send, get,
}

-- What the sampler learns of the responses: the rates of each one that is no error and has any.
abbrev pub learned : List Response → Option RateByServiceSampler → Option RateByServiceSampler
learned responses none = none
learned [] (some sampler) = some sampler
learned (failed ∷ responses) (some sampler) = learned responses (some sampler)
learned (answered status none ∷ responses) (some sampler) = learned responses (some sampler)
learned (answered status (some rates) ∷ responses) (some sampler) =
    learned responses
      (some (if leb 400 status then sampler else set_sample_rate_by_service rates sampler))

module _ {A : Type 0} where
  trace_queue-log_error_status :
      (now : ℕ) (writer : AgentWriter A)
      → (log_error_status now writer).1.trace_queue ≡ writer.trace_queue
  unfolding log_error_status
  trace_queue-log_error_status now writer = ground arith

  trace_queue-handle_response :
      (now : ℕ) (response : Response) (writer : AgentWriter A)
      (sampler : Option RateByServiceSampler)
      → (handle_response now response (writer, sampler)).0.trace_queue ≡ writer.trace_queue
  unfolding handle_response
  trace_queue-handle_response now failed writer sampler = trace_queue-log_error_status now writer
  trace_queue-handle_response now (answered status rates) writer none =
      ground (arith, trace_queue-log_error_status now writer)
  trace_queue-handle_response now (answered status none) writer (some sampler) =
      ground (arith, trace_queue-log_error_status now writer)
  trace_queue-handle_response now (answered status (some rates)) writer (some sampler) =
      ground (arith, trace_queue-log_error_status now writer)

  trace_queue-handle_responses :
      (now : ℕ) (responses : List Response) (writer : AgentWriter A)
      (sampler : Option RateByServiceSampler)
      → (handle_responses now responses (writer, sampler)).0.trace_queue ≡ writer.trace_queue
  unfolding handle_responses
  trace_queue-handle_responses now [] writer sampler = refl
  trace_queue-handle_responses now (response ∷ responses) writer sampler =
      trace_queue-handle_responses now responses (handle_response now response (writer, sampler)).0
        (handle_response now response (writer, sampler)).1
      ∙ trace_queue-handle_response now response writer sampler

  get-none : (q : Q A) → q.queue ≡ [] → get q ≡ (none, q)
  unfolding get
  get-none q e = ground arith

  get-some :
      (q : Q A) {x : List A} {xs : List (List A)}
      → q.queue ≡ x ∷ xs
      → get q ≡ (some (x ∷ xs), record q { queue = [] })
  unfolding get
  get-some q e = ground arith

  unsampled :
      (now : ℕ) (responses : List Response) (writer : AgentWriter A)
      → (handle_responses now responses (writer, none)).1 ≡ none
  unfolding handle_responses handle_response
  unsampled now [] writer = refl
  unsampled now (failed ∷ responses) writer = unsampled now responses _
  unsampled now (answered status rates ∷ responses) writer = unsampled now responses _

  handle_response-rates :
      (now status : ℕ) (rates : List (String × SampleRate)) (writer : AgentWriter A)
      (sampler : RateByServiceSampler)
      → handle_response now (answered status (some rates)) (writer, some sampler) ≡ (
        if leb 400 status then (log_error_status now writer).1 else writer,
        some (if leb 400 status then sampler else set_sample_rate_by_service rates sampler),
      )
  unfolding handle_response
  handle_response-rates now status rates writer sampler = elim (Bool-cases (leb 400 status)) [
    | inl refused ↦ rw refused refl
    | inr good ↦ rw good refl
  ]

  handle_responses-learned :
      (now : ℕ) (responses : List Response) (writer : AgentWriter A)
      (sampler : RateByServiceSampler)
      → (handle_responses now responses (writer, some sampler)).1 ≡ learned responses (some sampler)
  unfolding handle_responses handle_response
  handle_responses-learned now [] writer sampler = refl
  handle_responses-learned now (failed ∷ responses) writer sampler =
      handle_responses-learned now responses _ sampler
  handle_responses-learned now (answered status none ∷ responses) writer sampler =
      handle_responses-learned now responses _ sampler
  handle_responses-learned now (answered status (some rates) ∷ responses) writer sampler =
      ap (λ x. (handle_responses now responses x).1)
        (handle_response-rates now status rates writer sampler)
      ∙ handle_responses-learned now responses _ _

  learned_lem :
      (now : ℕ) (responses : List Response) (writer : AgentWriter A)
      (sampler : Option RateByServiceSampler)
      → (handle_responses now responses (writer, sampler)).1 ≡ learned responses sampler
  learned_lem now responses writer none = unsampled now responses writer
  learned_lem now responses writer (some sampler) =
      handle_responses-learned now responses writer sampler

module _ {S A : Type 0} (filters : Option (List (Filter A))) (api : Option (SendTraces S A)) where
  -- How a flush of a queue ends, from a sampler and a state of the agent: its outcome, the sampler and
  -- the agent afterwards.
  pub data Ends (queue : List (List A)) (sampler : Option RateByServiceSampler) (agent : S)
      : Result (Unit {0}) → Option RateByServiceSampler → S → Type 0 where
    idle : queue ≡ [] → Ends queue sampler agent (ok tt) sampler agent
    filter_error :
        {e : Error}
        → queue ≢ []
        → apply_filters filters queue ≡ raised e
        → Ends queue sampler agent (ok tt) sampler agent
    no_api :
        {kept : List (List A)}
        → queue ≢ []
        → apply_filters filters queue ≡ ok kept
        → api ≡ none
        → Ends queue sampler agent (raised attribute_error) sampler agent
    refused :
        {kept : List (List A)} {send_traces : SendTraces S A} {e : Error} {agent' : S}
        → queue ≢ []
        → apply_filters filters queue ≡ ok kept
        → api ≡ some send_traces
        → send_traces kept agent ≡ (raised e, agent')
        → Ends queue sampler agent (raised e) sampler agent'
    sent :
        {kept : List (List A)} {send_traces : SendTraces S A} {responses : List Response}
        {agent' : S}
        → queue ≢ []
        → apply_filters filters queue ≡ ok kept
        → api ≡ some send_traces
        → send_traces kept agent ≡ (ok responses, agent')
        → Ends queue sampler agent (ok tt) (learned responses sampler) agent'

  -- How it ends, with nothing left in the queue.
  abbrev pub Flushed : Flushing S A → List (List A) → Result (Unit {0}) × Flushing S A → Type 0
  Flushed f queue (outcome, f') =
      Ends queue f.sampler f.agent outcome f'.sampler f'.agent × (f'.writer.trace_queue.queue ≡ [])

  module _ (now : ℕ) (f : Flushing S A) (queue : List (List A)) (some_queued : queue ≢ [])
      (emptied : f.writer.trace_queue.queue ≡ []) where
    answer-Flushed :
        (send_traces : SendTraces S A) (kept : List (List A)) (x : Result (List Response) × S)
        → apply_filters filters queue ≡ ok kept
        → api ≡ some send_traces
        → send_traces kept f.agent ≡ x
        → Flushed f queue (
            continue x.0
              (λ responses. modify (take_responses now responses))
              (record f { agent = x.1 }))
    unfolding take_responses
    answer-Flushed send_traces kept (raised e, agent') k a x = (refused some_queued k a x, emptied)
    answer-Flushed send_traces kept (ok responses, agent') k a x = (
      rw (learned_lem now responses f.writer f.sampler) (sent some_queued k a x),
      ap (λ q. q.queue) (trace_queue-handle_responses now responses f.writer f.sampler) ∙ emptied,
    )

    send-Flushed :
        (filtered : Result (List (List A))) (o : Option (SendTraces S A))
        → apply_filters filters queue ≡ filtered
        → api ≡ o
        → Flushed f queue (send o now filtered f)
    unfolding send on_agent
    send-Flushed (raised e) o k a = (filter_error some_queued k, emptied)
    send-Flushed (ok kept) none k a = (no_api some_queued k a, emptied)
    send-Flushed (ok kept) (some send_traces) k a =
        answer-Flushed send_traces kept (send_traces kept f.agent) k a refl

  queue-Flushed :
      (now : ℕ) (f : Flushing S A) (queue : List (List A))
      → f.writer.trace_queue.queue ≡ queue
      → Flushed f queue (flush_queue filters api now f)
  unfolding flush_queue flush_popped
  queue-Flushed now f [] e = rw (get-none f.writer.trace_queue e) (idle refl, e)
  queue-Flushed now f (trace ∷ traces) e = rw (get-some f.writer.trace_queue e) (
      send-Flushed now
        (record f {
          writer = record f.writer { trace_queue = record f.writer.trace_queue { queue = [] } };
        })
        (trace ∷ traces) (λ c. ground arith) refl _ api refl refl)

  -- A flush empties the queue, whatever it finds, and ends in one of five ways. Nothing was queued, and
  -- nothing happens. A filter raised on the queued traces, which are lost: the flush returns and the
  -- agent is not called. The writer has no API: AttributeError is raised. The agent was called once,
  -- with what the filters leave of all the queued traces, and that raised: so does the flush, and the
  -- sampler is as it was. Or the call returned responses: the flush returns, and the sampler has the
  -- rates of those that are no errors, in their order.
  pub flush_queue-Flushed :
      (now : ℕ) (f : Flushing S A)
      → Flushed f f.writer.trace_queue.queue (flush_queue filters api now f)
  flush_queue-Flushed now f = queue-Flushed now f f.writer.trace_queue.queue refl
