-- ===== src/Logger/Skipped.antt =====
-- oteltrace/internal/logger.py: every record is shown or counted.
use mathlib.Core.Path.{subst}
use opentelemetry_auto_instr.Common.{
  ℕ, ◌+◌, ◌==◌, ◌≡◌, refl, sym, ◌∙◌, ap, ℤ, pos, negsuc, eq_ℤ, eq_ℤ-true, nonzero, true, List, [],
  ◌∷◌, arith, eq_iff, Bool-cases, inl, inr, if◌then◌else◌,
}
use opentelemetry_auto_instr.Logger.{
  LogKey, same_key, LogRecord, LoggingBucket, OtelLogger, time_bucket, Handled, passed,
  passed_after, handle_in, handle,
}

same_key-true : (a b : LogKey) → same_key a b ≡ true → a ≡ b
same_key-true (name, level, path, line) (name', level', path', line') same =
    let e : name ≡ name' = ground (arith, same, eq_iff name name') in
    let f : level ≡ level' = ground (arith, same) in
    let g : path ≡ path' = ground (arith, same, eq_iff path path') in
    let h : line ≡ line' = ground (arith, same) in cc (e, f, g, h)

same_key_refl : (a : LogKey) → same_key a a ≡ true
same_key_refl (name, level, path, line) = ground (arith, eq_iff name name, eq_iff path path)

-- The records of one key: how many were shown, and how many a shown one reported as skipped.
pub record Tally : Type 0 where
  pub shown : ℕ
  pub reported : ℕ

abbrev pub count : Handled → Tally → Tally
count passed t = record t { shown = t.shown + 1 }
count (passed_after n) t = record { shown = t.shown + 1; reported = t.reported + n }
count Handled.skipped t = t

unfoldable pub run : LogKey → List LogRecord → OtelLogger → Tally → Tally × OtelLogger
run key [] logger t = (t, logger)
run key (r ∷ records) logger t =
    let (handled, logger') = handle r logger in
    run key records logger' (if same_key r.key key then count handled t else t)

abbrev pub occurrences : LogKey → List LogRecord → ℕ
occurrences key [] = 0
occurrences key (r ∷ records) =
    let rest = occurrences key records in if same_key r.key key then rest + 1 else rest

abbrev total : LogKey → Tally → OtelLogger → ℕ
total key t logger = t.shown + t.reported + (logger.buckets key).skipped

step_in :
    (key k : LogKey) (current : ℤ) (logger : OtelLogger) (t : Tally)
    → let (handled, logger') = handle_in current (logger.buckets k) k logger in
      total key (if same_key k key then count handled t else t) logger'
      ≡ (if same_key k key then total key t logger + 1 else total key t logger)
unfolding handle_in
step_in key k current logger t = elim (Bool-cases (same_key k key)) [
  | inr other ↦ (elim (Bool-cases (eq_ℤ (logger.buckets k).bucket current)) [
    | inl stays ↦ simp (other, stays) refl
    | inr moves ↦ simp (other, moves) refl
  ])
  | inl same ↦
      let e : (logger.buckets k).skipped ≡ (logger.buckets key).skipped =
        ap (λ q. (logger.buckets q).skipped) (same_key-true k key same) in
      elim (Bool-cases (eq_ℤ (logger.buckets k).bucket current)) [
        | inl stays ↦ simp (same, stays) (omega (arith, e))
        | inr moves ↦ (elim (Bool-cases ((logger.buckets k).skipped == 0)) [
          | inl none_skipped ↦ simp (same, moves, none_skipped) (ground (arith, e, none_skipped))
          | inr some_skipped ↦ simp (same, moves, some_skipped) (omega (arith, e))
        ])
      ]
]

handle_limited :
    (r : LogRecord) (logger : OtelLogger)
    → nonzero logger.rate_limit ≡ true
    → handle r logger
      ≡ handle_in (time_bucket r.created logger.rate_limit) (logger.buckets r.key) r.key logger
unfolding handle
handle_limited r logger limited = simp limited refl

rate_limit-handle_in :
    (current : ℤ) (b : LoggingBucket) (k : LogKey) (logger : OtelLogger)
    → (handle_in current b k logger).1.rate_limit ≡ logger.rate_limit
unfolding handle_in
rate_limit-handle_in current b k logger = elim (Bool-cases (eq_ℤ b.bucket current)) [
  | inl stays ↦ simp stays refl
  | inr moves ↦ simp moves refl
]

step_handle :
    (key : LogKey) (r : LogRecord) (logger : OtelLogger) (t : Tally)
    → nonzero logger.rate_limit ≡ true
    → let x = handle r logger in
      (total key (if same_key r.key key then count x.0 t else t) x.1
        ≡ (if same_key r.key key then total key t logger + 1 else total key t logger))
      × (x.1.rate_limit ≡ logger.rate_limit)
step_handle key r logger t limited =
    let current = time_bucket r.created logger.rate_limit in
    subst
      (λ x.
        (total key (if same_key r.key key then count x.0 t else t) x.1
          ≡ (if same_key r.key key then total key t logger + 1 else total key t logger))
        × (x.1.rate_limit ≡ logger.rate_limit))
      (sym (handle_limited r logger limited))
      (
        step_in key r.key current logger t,
        rate_limit-handle_in current (logger.buckets r.key) r.key logger,
      )

-- A logger with a rate limit loses no record unaccounted: over any sequence of records, those of one
-- place in the code are each shown, or reported as skipped by one that was shown, or still in the
-- count of that place.
pub run_total :
    (key : LogKey) (records : List LogRecord) (logger : OtelLogger) (t : Tally)
    → nonzero logger.rate_limit ≡ true
    → let (t', logger') = run key records logger t in
      t'.shown + t'.reported + (logger'.buckets key).skipped
      ≡ t.shown + t.reported + (logger.buckets key).skipped + occurrences key records
unfolding run
run_total key [] logger t limited = omega arith
run_total key (r ∷ records) logger t limited =
    let stepped = step_handle key r logger t limited in
    run_total key records (handle r logger).1
      (if same_key r.key key then count (handle r logger).0 t else t)
      (ap nonzero stepped.1 ∙ limited)
    ∙ elim (Bool-cases (same_key r.key key)) [
      | inl same ↦ simp same (omega (arith, simp same at stepped.0))
      | inr other ↦ simp other (omega (arith, simp other at stepped.0))
    ]

stored_bucket :
    (k : LogKey) (current : ℤ) (logger : OtelLogger)
    → ((handle_in current (logger.buckets k) k logger).1.buckets k).bucket ≡ current
unfolding handle_in
stored_bucket k current logger = elim (Bool-cases (eq_ℤ (logger.buckets k).bucket current)) [
  | inl stays ↦ simp (stays, same_key_refl k) (eq_ℤ-true (logger.buckets k).bucket current stays)
  | inr moves ↦ simp (moves, same_key_refl k) refl
]

eq_ℤ_refl : (n : ℤ) → eq_ℤ n n ≡ true
eq_ℤ_refl (pos n) = ground arith
eq_ℤ_refl (negsuc n) = ground arith

stays_skipped :
    (k : LogKey) (current : ℤ) (b : LoggingBucket) (logger : OtelLogger)
    → b.bucket ≡ current
    → (handle_in current b k logger).0 ≡ Handled.skipped
unfolding handle_in
stays_skipped k current b logger e = simp (e, eq_ℤ_refl current) refl

-- With a rate limit, of two records from one place in the code that fall into one time bucket, the
-- second is skipped if it follows the first, whatever became of the first.
pub second_skipped :
    (r r' : LogRecord) (logger : OtelLogger)
    → nonzero logger.rate_limit ≡ true
    → r.key ≡ r'.key
    → time_bucket r.created logger.rate_limit ≡ time_bucket r'.created logger.rate_limit
    → (handle r' (handle r logger).1).0 ≡ Handled.skipped
second_skipped r r' logger limited same_place same_time =
    let current = time_bucket r.created logger.rate_limit in
    let after = (handle_in current (logger.buckets r.key) r.key logger).1 in
    let rate : after.rate_limit ≡ logger.rate_limit =
      rate_limit-handle_in current (logger.buckets r.key) r.key logger in
    ap (λ x. (handle r' x.1).0) (handle_limited r logger limited)
    ∙ ap (λ x. x.0) (handle_limited r' after (ap nonzero rate ∙ limited))
    ∙ stays_skipped r'.key (time_bucket r'.created after.rate_limit) (after.buckets r'.key) after (
        ap (λ k. (after.buckets k).bucket) (sym same_place)
        ∙ stored_bucket r.key current logger
        ∙ same_time
        ∙ ap (time_bucket r'.created) (sym rate))
