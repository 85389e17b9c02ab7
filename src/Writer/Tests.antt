-- ===== src/Writer/Tests.antt =====
-- oteltrace/internal/writer.py: the theorems on the queue and the flush at concrete queues.
use mathlib.Core.List.Perm
use opentelemetry_auto_instr.Common.{
  ℕ, ◌≡◌, refl, none, some, List, [], ◌∷◌, ok, length, ◌+◌, arith,
}
use opentelemetry_auto_instr.Writer.{
  Q, AgentWriter, Filter, SendTraces, Flushing, filter_trace, filter_all, flush_queue, answered,
}
use opentelemetry_auto_instr.Writer.Queue.{
  puts, gets, resets, Op, History, run, Accounts, run-Accounts,
}
use opentelemetry_auto_instr.Writer.Flush.{Flushed, flush_queue-Flushed}

abbrev pair : Q ℕ
pair = record {
  maxsize = 2;
  queue = (1 ∷ 2 ∷ []) ∷ (3 ∷ []) ∷ [];
  dropped = 0;
  accepted = 2;
  accepted_lengths = 3;
}

abbrev start : History ℕ
start = record { q = pair; offered = pair.queue; delivered = []; accepted = 0; dropped = 0 }

abbrev calls : List (Op ℕ)
calls = puts 1 (4 ∷ []) ∷ resets ∷ gets ∷ puts 0 (5 ∷ []) ∷ []

run-Accounts_example : Accounts (run calls start)
run-Accounts_example = run-Accounts calls start record {
  lost = [];
  accounted = Perm.refl pair.queue;
  all_dropped = refl;
  all_accepted = refl;
  bounded = omega arith;
  sized = omega arith;
}

-- A filter that stops traces of more than one span.
abbrev short_only : Filter ℕ
short_only [] = ok (some [])
short_only (x ∷ []) = ok (some (x ∷ []))
short_only (x ∷ y ∷ trace) = ok none

filtered : filter_all (short_only ∷ []) pair.queue ≡ ok ((3 ∷ []) ∷ [])
unfolding filter_all filter_trace
filtered = refl

abbrev loaded : AgentWriter ℕ
loaded = record { pid = 42; trace_queue = pair; last_error_ts = 0 }

-- an agent that counts the traces it was sent
abbrev counting : SendTraces ℕ ℕ
counting traces n = (ok (answered 200 none ∷ []), n + length traces)

abbrev loading : Flushing ℕ ℕ
loading = record { writer = loaded; sampler = none; agent = 0 }

flush_queue-Flushed_example :
    Flushed
      (some (short_only ∷ []))
      (some counting)
      loading
      pair.queue
      (flush_queue (some (short_only ∷ [])) (some counting) 9000 loading)
flush_queue-Flushed_example =
    flush_queue-Flushed (some (short_only ∷ [])) (some counting) 9000 loading
