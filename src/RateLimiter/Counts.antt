-- ===== src/RateLimiter/Counts.antt =====
-- oteltrace/internal/rate_limiter.py: the counts behind `effective_rate`.
use opentelemetry_auto_instr.Common.{ℕ, ◌≤◌, ◌<◌, ℤ, Bool, Option, none, some, List, [], ◌∷◌, arith}
use opentelemetry_auto_instr.RateLimiter.{
  Ratio, RateLimiter, Readings, init, is_allowed_by, roll_window, count_token, current_window_rate,
  update_rate_counts, is_allowed, averaged, effective_rate, serve,
}

-- A rate between 0 and 1, with a denominator that is not zero.
pub record IsRate (q : Ratio) : Type 0 where
  pub defined : 0 < q.den
  pub at_most_one : q.num ≤ q.den

abbrev pub PrevIsRate : Option Ratio → Type 0
PrevIsRate none = Unit
PrevIsRate (some q) = IsRate q

pub record IsValid (l : RateLimiter) : Type 0 where
  pub within : l.tokens ≤ l.max_tokens
  pub counted : l.tokens_allowed ≤ l.tokens_total
  pub prev : PrevIsRate l.prev_window_rate

init-IsValid : (limit : ℤ) (now : ℕ) → IsValid (init limit now)
unfolding init
init-IsValid limit now = record { within = omega arith; counted = omega arith; prev = tt }

is_allowed_by-IsValid :
    (limit : ℤ) (now : ℕ) (l : RateLimiter) → IsValid l → IsValid (is_allowed_by limit now l).1
unfolding is_allowed_by
is_allowed_by-IsValid limit now l v = ground arith

current_window_rate-IsRate : (l : RateLimiter) → IsValid l → IsRate (current_window_rate l)
unfolding current_window_rate
current_window_rate-IsRate l v = ground arith

roll_window-IsValid : (now : ℕ) (l : RateLimiter) → IsValid l → IsValid (roll_window now l)
unfolding roll_window
roll_window-IsValid now l v = ground (arith, current_window_rate-IsRate l v)

count_token-IsValid :
    (allowed : Bool) (l : RateLimiter) → IsValid l → IsValid (count_token allowed l)
unfolding count_token
count_token-IsValid allowed l v = ground arith

-- One request keeps the tokens within the maximum, the allowed within the total, and the previous
-- window's rate between 0 and 1.
pub is_allowed-IsValid :
    (now : Readings) (l : RateLimiter) → IsValid l → IsValid (is_allowed now l).1
unfolding is_allowed update_rate_counts
is_allowed-IsValid now l v =
    let (allowed, l') = is_allowed_by l.rate_limit now.refill l in
    count_token-IsValid allowed (roll_window now.count l')
      (roll_window-IsValid now.count l' (is_allowed_by-IsValid l.rate_limit now.refill l v))

averaged-IsRate :
    (current : Ratio) (prev : Option Ratio)
    → IsRate current
    → PrevIsRate prev
    → IsRate (averaged current prev)
averaged-IsRate current none h k = h
averaged-IsRate current (some prev) h k = grind arith

effective_rate-IsRate : (l : RateLimiter) → IsValid l → IsRate (effective_rate l)
unfolding effective_rate
effective_rate-IsRate l v =
    averaged-IsRate (current_window_rate l) l.prev_window_rate (current_window_rate-IsRate l v)
      v.prev

serve-IsValid :
    (history : List Readings) (l : RateLimiter) → IsValid l → IsValid (serve history l).1
unfolding serve
serve-IsValid [] l v = v
serve-IsValid (now ∷ later) l v =
    serve-IsValid later (is_allowed now l).1 (is_allowed-IsValid now l v)

-- After any history of requests to a new limiter of any limit, `effective_rate` is defined and is
-- between 0 and 1.
pub effective_rate_bounds :
    (limit : ℤ) (start : ℕ) (history : List Readings)
    → IsRate (effective_rate (serve history (init limit start)).1)
effective_rate_bounds limit start history =
    effective_rate-IsRate _ (serve-IsValid history _ (init-IsValid limit start))
