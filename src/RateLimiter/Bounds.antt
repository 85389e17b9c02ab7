-- ===== src/RateLimiter/Bounds.antt =====
-- oteltrace/internal/rate_limiter.py: how many requests `is_allowed` lets through.
use opentelemetry_auto_instr.Common.{
  ℕ, zero, suc, ◌+◌, ◌-◌, ◌*◌, ◌≤◌, ◌<◌, ◌≡◌, refl, pos, Bool, true, false, List, [], ◌∷◌, arith,
  replicate, if◌then◌else◌,
}
use opentelemetry_auto_instr.RateLimiter.{
  second, RateLimiter, Readings, replenish, is_allowed_by, update_rate_counts, is_allowed, serve,
}

-- The refills of a history follow the given moment and one another, and end by `stop`.
abbrev pub Follows : ℕ → List Readings → ℕ → Type 0
Follows start [] stop = start ≤ stop
Follows start (now ∷ later) stop = (start ≤ now.refill) × Follows now.refill later stop

abbrev cost : Bool → ℕ
cost allowed = if allowed then second else 0

-- The count of a call leaves the bucket as it was.
record SameBucket (l l' : RateLimiter) : Type 0 where
  limit : l'.rate_limit ≡ l.rate_limit
  tokens : l'.tokens ≡ l.tokens
  cap : l'.max_tokens ≡ l.max_tokens
  stamp : l'.last_update ≡ l.last_update

update_rate_counts-SameBucket :
    (now : ℕ) (allowed : Bool) (l : RateLimiter) → SameBucket l (update_rate_counts now allowed l)
unfolding update_rate_counts
update_rate_counts-SameBucket now allowed l = ground arith

-- What one call does to the bucket of a limiter with limit r.
record Spends (r : ℕ) (now : ℕ) (l : RateLimiter) (allowed : Bool) (l' : RateLimiter) : Type 0 where
  limit : l'.rate_limit ≡ pos r
  paid : cost allowed + l'.tokens + l.last_update * r ≤ l.tokens + l'.last_update * r
  onward : l.last_update ≤ l'.last_update
  by_now : l'.last_update ≤ now

elapsed_mul : (a b r : ℕ) → a ≤ b → (b - a) * r + a * r ≡ b * r
elapsed_mul a b r h = grind arith

module _ (r now : ℕ) (l : RateLimiter) (limit : l.rate_limit ≡ pos r)
    (later : l.last_update ≤ now) where
  replenish-Spends : Spends r now l false (replenish now l)
  unfolding replenish
  replenish-Spends = rw limit (ground (arith, elapsed_mul l.last_update now r later))

  is_allowed_by-Spends :
      let (allowed, l') = is_allowed_by (pos r) now l in Spends r now l allowed l'
  unfolding is_allowed_by
  is_allowed_by-Spends = ground (arith, replenish-Spends)

  is_allowed-Spends :
      (count : ℕ)
      → let (allowed, l') = is_allowed (record { refill = now; count = count }) l in
        Spends r now l allowed l'
  unfolding is_allowed
  is_allowed-Spends count =
      let (allowed, l') = is_allowed_by (pos r) now l in
      rw limit
        (ground (arith, is_allowed_by-Spends, update_rate_counts-SameBucket count allowed l'))

-- For a limit of r requests a second, whatever the history: the tokens spent on allowed requests,
-- with those left, are at most the tokens held at the start and r for each second since the last
-- refill before it.
pub allowed_bound :
    (r : ℕ) (l : RateLimiter) (start stop : ℕ) (history : List Readings)
    → l.rate_limit ≡ pos r
    → l.last_update ≤ start
    → Follows start history stop
    → let (n, l') = serve history l in
      n * second + l'.tokens + l.last_update * r ≤ l.tokens + stop * r
unfolding serve
allowed_bound r l start stop [] limit old f = grind arith
allowed_bound r l start stop (now ∷ later) limit old f =
    let step = is_allowed-Spends r now.refill l limit (omega arith) now.count in
    ground (
      arith,
      step,
      allowed_bound r (is_allowed now l).1 now.refill stop later step.limit step.by_now f.1,
    )

zero_limit_step :
    (now : Readings) (l : RateLimiter)
    → l.rate_limit ≡ pos 0
    → ((is_allowed now l).0 ≡ false) × ((is_allowed now l).1.rate_limit ≡ pos 0)
unfolding is_allowed is_allowed_by
zero_limit_step now l e = rw e (refl, (update_rate_counts-SameBucket now.count _ _).limit)

-- A limit of zero blocks every request of every history.
pub zero_limit_blocks :
    (l : RateLimiter) (history : List Readings) → l.rate_limit ≡ pos 0 → (serve history l).0 ≡ 0
unfolding serve
zero_limit_blocks l [] e = refl
zero_limit_blocks l (now ∷ later) e =
    let (blocked, kept) = zero_limit_step now l e in
    ground (arith, blocked, zero_limit_blocks (is_allowed now l).1 later kept)

-- A moment with k whole tokens, refilled last at that moment: k more requests pass at once.
module _ (r : ℕ) (now : Readings) where
  record Holds (k : ℕ) (l : RateLimiter) : Type 0 where
    limit : l.rate_limit ≡ pos r
    stamped : l.last_update ≡ now.refill
    stocked : k * second ≤ l.tokens
    topped : l.tokens ≤ l.max_tokens

  Holds-is_allowed :
      (k : ℕ) (l : RateLimiter)
      → 0 < r
      → Holds (suc k) l
      → ((is_allowed now l).0 ≡ true) × Holds k (is_allowed now l).1
  unfolding is_allowed is_allowed_by
  Holds-is_allowed k l some_limit h =
      let (allowed, l') = is_allowed_by (pos r) now.refill l in
      rw h.limit (ground (arith, update_rate_counts-SameBucket now.count allowed l'))

  serve-Holds : (k : ℕ) (l : RateLimiter) → 0 < r → Holds k l → (serve (replicate k now) l).0 ≡ k
  unfolding serve
  serve-Holds zero l some_limit h = refl
  serve-Holds (suc k) l some_limit h =
      let (passed, next) = Holds-is_allowed k l some_limit h in
      ground (arith, passed, serve-Holds k (is_allowed now l).1 some_limit next)

  -- After the first request of a full bucket, and an idle second.
  record Drained (l : RateLimiter) : Type 0 where
    limit : l.rate_limit ≡ pos r
    cap : l.max_tokens ≡ r * second
    spent : l.tokens + second ≡ l.max_tokens
    idle : l.last_update + second ≤ now.refill

  Drained-is_allowed :
      (l : RateLimiter)
      → 0 < r
      → l.rate_limit ≡ pos r
      → l.max_tokens ≡ r * second
      → l.tokens ≡ l.max_tokens
      → l.last_update + second ≤ now.refill
      → ((is_allowed now l).0 ≡ true) × Drained (is_allowed now l).1
  unfolding is_allowed is_allowed_by
  Drained-is_allowed l some_limit limit cap full idle =
      let (allowed, l') = is_allowed_by (pos r) now.refill l in
      rw limit (ground (arith, update_rate_counts-SameBucket now.count allowed l'))

  refilled : (l : RateLimiter) → Drained l → r * second ≤ (now.refill - l.last_update) * r
  refilled l h = grind (arith, h.idle)

  Holds-Drained :
      (k : ℕ) (l : RateLimiter)
      → r ≡ suc k
      → Drained l
      → ((is_allowed now l).0 ≡ true) × Holds k (is_allowed now l).1
  unfolding is_allowed is_allowed_by
  Holds-Drained k l e h =
      let (allowed, l') = is_allowed_by (pos r) now.refill l in
      rw h.limit (ground (arith, refilled l h, update_rate_counts-SameBucket now.count allowed l'))

-- A full bucket that was last stamped a second or more ago gives r + 1 requests at one instant:
-- the refill returns early at the maximum without moving `last_update`, so the next one counts the
-- idle time that the full bucket had no room for.
pub full_bucket_burst :
    (r : ℕ) (l : RateLimiter) (now : Readings)
    → 0 < r
    → l.rate_limit ≡ pos r
    → l.max_tokens ≡ r * second
    → l.tokens ≡ l.max_tokens
    → l.last_update + second ≤ now.refill
    → (serve (replicate (suc r) now) l).0 ≡ suc r
unfolding serve
full_bucket_burst zero l now some_limit limit cap full idle = absurd (omega arith)
full_bucket_burst (suc k) l now some_limit limit cap full idle =
    let (first, drained) = Drained-is_allowed (suc k) now l some_limit limit cap full idle in
    let (second_passes, held) = Holds-Drained (suc k) now k (is_allowed now l).1 refl drained in
    let rest = serve-Holds (suc k) now k (is_allowed now (is_allowed now l).1).1 some_limit held in
    ground (arith, first, second_passes, rest)
