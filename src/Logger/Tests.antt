-- ===== src/Logger/Tests.antt =====
-- oteltrace/internal/logger.py: the theorems at a logger that shows one record a minute.
use opentelemetry_auto_instr.Common.{◌+◌, ◌≡◌, refl, pos, List, [], ◌∷◌}
use opentelemetry_auto_instr.Logger.{LogKey, LogRecord, OtelLogger, time_bucket, handle, handle_in}
use opentelemetry_auto_instr.Logger.Skipped.{run, run_total}

abbrev place : LogKey
place = ("oteltrace.tracer", 10, "tracer.py", 137)

abbrev at_minute : LogRecord
at_minute = record { key = place; created = 60_000_000_000 }

abbrev seconds_later : LogRecord
seconds_later = record { key = place; created = 75_000_000_000 }

abbrev next_minute : LogRecord
next_minute = record { key = place; created = 125_000_000_000 }

abbrev minutely : OtelLogger
minutely = record { buckets = λ key. record { bucket = pos 0; skipped = 0 }; rate_limit = pos 60 }

abbrev records : List LogRecord
records = at_minute ∷ seconds_later ∷ seconds_later ∷ next_minute ∷ []

two_skipped :
    (run place records minutely (record { shown = 0; reported = 0 })).0
    ≡ record { shown = 2; reported = 2 }
unfolding run handle handle_in time_bucket
two_skipped = refl

run_total_example :
    let (t, logger) = run place records minutely (record { shown = 0; reported = 0 }) in
    t.shown + t.reported + (logger.buckets place).skipped ≡ 4
run_total_example = run_total place records minutely (record { shown = 0; reported = 0 }) refl
