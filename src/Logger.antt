-- ===== src/Logger.antt =====
-- oteltrace/internal/logger.py: `OtelLogger.handle`, which shows one record of a place in the code per
-- time bucket and counts those that it skips. Times are whole nanoseconds; what the base class does
-- with a record that is passed to it is not looked at.
pub mod Skipped
mod Tests
use Prim.Native.Nat.{◌/◌}
use opentelemetry_auto_instr.Common.{
  ℕ, suc, ◌+◌, ◌*◌, ◌==◌, ℤ, pos, negsuc, eq_ℤ, nonzero, neg_ℕ, Bool, true, false, not, ◌&&◌,
  String, str_eq, if◌then◌else◌,
}
use opentelemetry_auto_instr.RateLimiter.{second}

-- `(record.name, record.levelno, record.pathname, record.lineno)`
abbrev pub LogKey : Type 0
LogKey = String × ℕ × String × ℕ

abbrev pub same_key : LogKey → LogKey → Bool
same_key (name, level, path, line) (name', level', path', line') =
    str_eq name name' && (level == level' && (str_eq path path' && line == line'))

pub record LogRecord : Type 0 where
  pub key : LogKey
  pub created : ℕ

pub record LoggingBucket : Type 0 where
  pub bucket : ℤ
  pub skipped : ℕ

-- `class OtelLogger`: the dictionary gives (0, 0) for a key that it does not have.
pub record OtelLogger : Type 0 where
  pub buckets : LogKey → LoggingBucket
  pub rate_limit : ℤ

pub new_logger : ℤ → OtelLogger
new_logger rate_limit = record {
  buckets = λ key. record { bucket = pos 0; skipped = 0 };
  rate_limit = rate_limit;
}

-- `int(record.created / self.rate_limit)`, which rounds towards 0
pub time_bucket : ℕ → ℤ → ℤ
time_bucket created (pos n) = pos (created / (n * second))
time_bucket created (negsuc n) = neg_ℕ (created / (suc n * second))

-- What becomes of a record: it is passed on as it is, or with a count of records skipped before it,
-- or skipped.
pub data Handled : Type 0 where
  passed : Handled
  passed_after : ℕ → Handled
  skipped : Handled

abbrev pub set_bucket : LogKey → LoggingBucket → OtelLogger → OtelLogger
set_bucket key b logger = record logger {
  buckets = λ other. if same_key key other then b else logger.buckets other;
}

-- A record, with its time bucket and the entry of its key.
pub handle_in : ℤ → LoggingBucket → LogKey → OtelLogger → Handled × OtelLogger
handle_in current b key logger =
    if not (eq_ℤ b.bucket current)
    then (
      if b.skipped == 0 then passed else passed_after b.skipped,
      set_bucket key (record { bucket = current; skipped = 0 }) logger,
    )
    else (
      Handled.skipped,
      set_bucket key (record { bucket = b.bucket; skipped = b.skipped + 1 }) logger,
    )

-- `OtelLogger.handle`
pub handle : LogRecord → OtelLogger → Handled × OtelLogger
unfolding handle_in
handle r logger =
    if not (nonzero logger.rate_limit)
    then (passed, logger)
    else handle_in (time_bucket r.created logger.rate_limit) (logger.buckets r.key) r.key logger
