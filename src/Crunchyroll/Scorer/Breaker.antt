-- ===== src/Crunchyroll/Scorer/Breaker.antt =====
-- services/crunchyroll/src/scorer.ts: ServiceCircuitBreaker, with the clock as an argument.
use proxy_pulse_crunchyroll.Prelude.{
  ℕ, zero, suc, ◌+◌, ◌-◌, ◌*◌, ◌<◌, ◌≤◌, ◌≡◌, refl, sym, subst, Bool, true, false, List, [], ◌∷◌,
  arith, ltb, leb, if◌then◌else◌, replicate, All,
}

-- `failures < threshold / 2` divides reals, so it is written without the division.
pub record ServiceCircuitBreaker : Type 0 where
  pub failures : ℕ
  pub successes : ℕ
  pub open_until : ℕ
  pub failure_threshold : ℕ
  pub reset_ms : ℕ

unfoldable pub is_open : ServiceCircuitBreaker → ℕ → Bool
is_open b now = ltb now b.open_until

unfoldable pub record_success : ServiceCircuitBreaker → ServiceCircuitBreaker
record_success b =
    let failures = b.failures - 2 in
    record b {
      successes = b.successes + 1;
      failures = failures;
      open_until = if ltb (failures * 2) b.failure_threshold then 0 else b.open_until;
    }

unfoldable pub record_failure : ServiceCircuitBreaker → ℕ → ServiceCircuitBreaker
record_failure b now =
    if leb b.failure_threshold (b.failures + 1)
    then record b { failures = 0; open_until = now + b.reset_ms }
    else record b { failures = b.failures + 1 }

-- `record(success)` at the time `now`.
unfoldable pub record_result : ServiceCircuitBreaker → Bool → ℕ → ServiceCircuitBreaker
unfolding record_success record_failure
record_result b success now = if success then record_success b else record_failure b now

-- A run of results with the times at which they are recorded.
unfoldable pub record_all : ServiceCircuitBreaker → List (Bool × ℕ) → ServiceCircuitBreaker
unfolding record_result
record_all b [] = b
record_all b ((success, now) ∷ rest) = record_all (record_result b success now) rest

unfoldable pub new_breaker : ℕ → ℕ → ServiceCircuitBreaker
new_breaker failure_threshold reset_ms = record {
  failures = 0;
  successes = 0;
  open_until = 0;
  failure_threshold = failure_threshold;
  reset_ms = reset_ms;
}

-- Results at which the clock is at most `latest`, and how many of them are failures.
abbrev pub NotAfter : ℕ → Bool × ℕ → Type 0
NotAfter latest (success, now) = now ≤ latest

abbrev pub failures_in : List (Bool × ℕ) → ℕ
failures_in [] = 0
failures_in ((success, now) ∷ rest) = (if success then 0 else 1) + failures_in rest

-- Fewer failures counted than the threshold, and open at most for the reset time from `latest` on.
abbrev IsBounded : ℕ → ℕ → ℕ → ServiceCircuitBreaker → Type 0
IsBounded threshold reset latest b =
    (b.failures < threshold)
    × ((b.open_until ≤ latest + reset) × ((b.failure_threshold ≡ threshold) × (b.reset_ms ≡ reset)))

record_result-IsBounded :
    (threshold reset latest : ℕ) (b : ServiceCircuitBreaker) (success : Bool) (now : ℕ)
    → now ≤ latest
    → IsBounded threshold reset latest b
    → IsBounded threshold reset latest (record_result b success now)
unfolding record_result record_success record_failure
record_result-IsBounded threshold reset latest b true now t h = ground (arith, h)
record_result-IsBounded threshold reset latest b false now t h = ground (arith, h)

record_all-IsBounded :
    (threshold reset latest : ℕ) (b : ServiceCircuitBreaker) (results : List (Bool × ℕ))
    → All (NotAfter latest) results
    → IsBounded threshold reset latest b
    → IsBounded threshold reset latest (record_all b results)
unfolding record_all
record_all-IsBounded threshold reset latest b [] times h = h
record_all-IsBounded threshold reset latest b ((success, now) ∷ rest) (t, times) h =
    record_all-IsBounded threshold reset latest (record_result b success now) rest times
      (record_result-IsBounded threshold reset latest b success now t h)

-- Whatever has been recorded up to some time, the breaker counts fewer failures than the threshold,
-- which is above 0, and it is closed once the reset time has passed since then.
pub record_all_recovers :
    (failure_threshold reset_ms latest now : ℕ) (results : List (Bool × ℕ))
    → 0 < failure_threshold
    → All (NotAfter latest) results
    → latest + reset_ms ≤ now
    → let b = record_all (new_breaker failure_threshold reset_ms) results in
      (b.failures < failure_threshold) × (is_open b now ≡ false)
unfolding new_breaker is_open
record_all_recovers failure_threshold reset_ms latest now results h times late =
    let f =
      record_all-IsBounded failure_threshold reset_ms latest
        (new_breaker failure_threshold reset_ms) results times (h, (omega arith, (refl, refl))) in
    (f.0, ground (arith, f))

record_failure-few :
    (b : ServiceCircuitBreaker) (now : ℕ)
    → b.failures + 1 < b.failure_threshold
    → record_result b false now ≡ record b { failures = b.failures + 1 }
unfolding record_result record_failure
record_failure-few b now h =
    let few : leb b.failure_threshold (b.failures + 1) ≡ false = ground arith in rw few refl

record_failure-full :
    (b : ServiceCircuitBreaker) (now : ℕ)
    → b.failure_threshold ≤ b.failures + 1
    → record_result b false now ≡ record b { failures = 0; open_until = now + b.reset_ms }
unfolding record_result record_failure
record_failure-full b now h =
    let full : leb b.failure_threshold (b.failures + 1) ≡ true = ground arith in rw full refl

-- Failures in a row that make the count reach the threshold, all recorded at one time, open the
-- breaker for exactly the reset time, and the count starts again at 0.
pub record_all_opens :
    (b : ServiceCircuitBreaker) (now later n : ℕ)
    → b.failures + suc n ≡ b.failure_threshold
    → let r = record_all b (replicate (suc n) (false, now)) in
      (r.failures ≡ 0) × (is_open r later ≡ ltb later (now + b.reset_ms))
unfolding record_all is_open
record_all_opens b now later zero h = rw (record_failure-full b now (omega arith)) (refl, refl)
record_all_opens b now later (suc n) h =
    subst
      (λ c.
        let r = record_all c (replicate (suc n) (false, now)) in
        (r.failures ≡ 0) × (is_open r later ≡ ltb later (now + b.reset_ms)))
      (sym (record_failure-few b now (omega arith)))
      (record_all_opens (record b { failures = b.failures + 1 }) now later n (omega arith))
