-- ===== src/RateLimiter/Tests.antt =====
-- oteltrace/internal/rate_limiter.py: runs at fixed inputs, and the theorems at concrete limiters.
use opentelemetry_auto_instr.Common.{
  ◌+◌, ◌*◌, ◌≤◌, ◌≡◌, refl, pos, none, List, [], ◌∷◌, arith, replicate,
}
use opentelemetry_auto_instr.RateLimiter.{second, RateLimiter, Readings, init, is_allowed, serve}
use opentelemetry_auto_instr.RateLimiter.Bounds.{allowed_bound, full_bucket_burst}
use opentelemetry_auto_instr.RateLimiter.Counts.{
  IsRate, IsValid, is_allowed-IsValid, effective_rate_bounds,
}
use opentelemetry_auto_instr.RateLimiter.{is_allowed_by, update_rate_counts, effective_rate}

abbrev at_second : Readings
at_second = record { refill = 2_000_000_000; count = 2_000_000_000 }

abbrev history : List Readings
history = at_second ∷ at_second ∷ at_second ∷ at_second ∷ []

-- Two requests a second: the first three of four at one instant are allowed.
abbrev two_a_second : RateLimiter
two_a_second = record {
  rate_limit = pos 2;
  tokens = 2_000_000_000;
  max_tokens = 2_000_000_000;
  last_update = 1_000_000_000;
  current_window = 0;
  tokens_allowed = 0;
  tokens_total = 0;
  prev_window_rate = none;
}

init_two : init (pos 2) 1_000_000_000 ≡ two_a_second
unfolding init
init_two = refl

three_of_four : (serve history two_a_second).0 ≡ 3
unfolding serve is_allowed is_allowed_by update_rate_counts
three_of_four = refl

allowed_bound_example :
    let (n, l') = serve history two_a_second in
    n * second + l'.tokens + 1_000_000_000 * 2 ≤ 2_000_000_000 + 2_000_000_000 * 2
allowed_bound_example =
    allowed_bound 2 two_a_second 1_000_000_000 2_000_000_000 history refl (omega arith)
      (omega arith)

full_bucket_burst_example : (serve (replicate 3 at_second) two_a_second).0 ≡ 3
full_bucket_burst_example =
    full_bucket_burst 2 two_a_second at_second (omega arith) refl refl refl (omega arith)

two_a_second-IsValid : IsValid two_a_second
two_a_second-IsValid = record { within = omega arith; counted = omega arith; prev = tt }

is_allowed-IsValid_example : IsValid (is_allowed at_second two_a_second).1
is_allowed-IsValid_example = is_allowed-IsValid at_second two_a_second two_a_second-IsValid

effective_rate_bounds_example :
    IsRate (effective_rate (serve history (init (pos 2) 1_000_000_000)).1)
effective_rate_bounds_example = effective_rate_bounds (pos 2) 1_000_000_000 history
