-- ===== src/RateLimiter.antt =====
-- oteltrace/internal/rate_limiter.py: `class RateLimiter`, the token bucket of the sampler.
-- A reading of `monotonic.monotonic()` is an argument, in nanoseconds; tokens are counted in
-- billionths, so that `elapsed * rate_limit` is exact. The clock does not run backwards, so the
-- truncated subtraction of two readings is the source's. A negative limit never reads its tokens.
pub mod Bounds
pub mod Counts
mod Tests
use opentelemetry_auto_instr.Common.{
  ℕ, suc, ◌+◌, ◌-◌, ◌*◌, min, ℤ, pos, negsuc, pos_part, Bool, true, false, Option, none, some, List,
  [], ◌∷◌, leb, ◌==◌, if◌then◌else◌,
}

-- One second, and one token.
abbrev pub second : ℕ
second = 1_000_000_000

-- A non-negative float that the code computes by division.
pub record Ratio : Type 0 where
  pub num : ℕ
  pub den : ℕ

pub record RateLimiter : Type 0 where
  pub rate_limit : ℤ
  pub tokens : ℕ
  pub max_tokens : ℕ
  pub last_update : ℕ
  pub current_window : ℕ
  pub tokens_allowed : ℕ
  pub tokens_total : ℕ
  pub prev_window_rate : Option Ratio

-- `RateLimiter(rate_limit)`, at the reading `now`
pub init : ℤ → ℕ → RateLimiter
init limit now = record {
  rate_limit = limit;
  tokens = pos_part limit * second;
  max_tokens = pos_part limit * second;
  last_update = now;
  current_window = 0;
  tokens_allowed = 0;
  tokens_total = 0;
  prev_window_rate = none;
}

pub replenish : ℕ → RateLimiter → RateLimiter
replenish now l = if l.tokens == l.max_tokens then l else record l {
  last_update = now;
  tokens = min l.max_tokens (l.tokens + (now - l.last_update) * pos_part l.rate_limit);
}

-- The test and the decrement that `_is_allowed` makes under its lock.
pub take_token : RateLimiter → Bool × RateLimiter
take_token l =
    if leb second l.tokens then (true, record l { tokens = l.tokens - second }) else (false, l)

-- `_is_allowed`, by the limit: none at 0, all below it, the bucket above it.
pub is_allowed_by : ℤ → ℕ → RateLimiter → Bool × RateLimiter
unfolding replenish take_token
is_allowed_by (negsuc n) now l = (true, l)
is_allowed_by (pos n) now l = if n == 0 then (false, l) else take_token (replenish now l)

pub current_window_rate : RateLimiter → Ratio
current_window_rate l =
    if l.tokens_total == 0
    then record { num = 1; den = 1 }
    else record { num = l.tokens_allowed; den = l.tokens_total }

-- The start of a new window, if there is none yet or the last one is a second old.
pub roll_window : ℕ → RateLimiter → RateLimiter
unfolding current_window_rate
roll_window now l =
    if l.current_window == 0
    then record l { current_window = now }
    else if leb (l.current_window + second) now
    then record l {
      prev_window_rate = some (current_window_rate l);
      tokens_allowed = 0;
      tokens_total = 0;
      current_window = now;
    }
    else l

pub count_token : Bool → RateLimiter → RateLimiter
count_token allowed l = record l {
  tokens_allowed = if allowed then l.tokens_allowed + 1 else l.tokens_allowed;
  tokens_total = l.tokens_total + 1;
}

pub update_rate_counts : ℕ → Bool → RateLimiter → RateLimiter
unfolding roll_window count_token
update_rate_counts now allowed l = count_token allowed (roll_window now l)

-- The two clock readings of one `is_allowed` call: the refill's and the count's.
pub record Readings : Type 0 where
  pub refill : ℕ
  pub count : ℕ

pub is_allowed : Readings → RateLimiter → Bool × RateLimiter
is_allowed now l =
    let (allowed, l') = is_allowed_by l.rate_limit now.refill l in
    (allowed, update_rate_counts now.count allowed l')

abbrev pub averaged : Ratio → Option Ratio → Ratio
averaged current none = current
averaged current (some prev) = record {
  num = current.num * prev.den + prev.num * current.den;
  den = 2 * (current.den * prev.den);
}

pub effective_rate : RateLimiter → Ratio
unfolding current_window_rate
effective_rate l = averaged (current_window_rate l) l.prev_window_rate

-- A history of calls: how many were allowed, and the limiter after them.
pub serve : List Readings → RateLimiter → ℕ × RateLimiter
serve [] l = (0, l)
serve (now ∷ later) l =
    let (allowed, l') = is_allowed now l in
    let (n, l'') = serve later l' in (if allowed then suc n else n, l'')
