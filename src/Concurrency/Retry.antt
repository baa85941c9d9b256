-- ===== src/Concurrency/Retry.antt =====
-- shared/src/concurrency.ts: attemptWithRetry. The task, the signal, the test for retryable errors
-- and the jitter (`Math.random` and a rounding) are parameters; an attempt is known by its number.
pub mod Attempts
use proxy_pulse_crunchyroll.Prelude.{
  ℕ, zero, suc, ◌+◌, ◌-◌, ◌*◌, ◌^◌, min, max, Bool, true, false, not, ◌||◌, List, [], ◌∷◌, ◌++◌,
  Option, none, some, leb, or_default,
}

pub data Settled (E T : Type 0) : Type 0 where
  resolved : T → Settled E T
  rejected : E → Settled E T

pub data Outcome (E T : Type 0) : Type 0 where
  returned : T → ℕ → List E → Outcome E T
  threw : E → Outcome E T
  aborted : Outcome E T
  unreachable : Outcome E T

-- The outcome, the number of times that the task was started, and the pauses before jitter.
pub record Run (E T : Type 0) : Type 0 where
  pub outcome : Outcome E T
  pub calls : ℕ
  pub pauses : List ℕ

pub record RetryOptions (E : Type 0) : Type 0 where
  pub attempts : Option ℕ
  pub base_delay_ms : Option ℕ
  pub max_delay_ms : Option ℕ
  pub factor : Option ℕ
  pub retryable : Option (E → Bool)

-- What a run meets: the task's results, whether the signal is aborted before an attempt, and
-- whether it is aborted in the pause after an attempt, given its length.
pub record Surroundings (E T : Type 0) : Type 0 where
  pub task : ℕ → Settled E T
  pub aborted_before : ℕ → Bool
  pub aborted_in_pause : ℕ → ℕ → Bool
  pub jittered : ℕ → ℕ → ℕ

module _ {E : Type 0} where
  -- `Math.max(1, Math.floor(options.attempts ?? 3))`
  abbrev pub attempts_of : RetryOptions E → ℕ
  attempts_of o = max 1 (or_default o.attempts 3)

  -- `Math.min(max, base * factor ** (attempt - 1))`
  abbrev pub raw_pause : RetryOptions E → ℕ → ℕ
  raw_pause o attempt =
      min (or_default o.max_delay_ms 4000)
        (or_default o.base_delay_ms 250 * or_default o.factor 2 ^ (attempt - 1))

  abbrev pub may_retry : Option (E → Bool) → E → Bool
  may_retry none e = true
  may_retry (some p) e = p e

module _ {E T : Type 0} where
  -- The `for` loop, with the number of rounds that are left, the attempt, and what was pushed.
  attempt_loop : RetryOptions E → Surroundings E T → ℕ → ℕ → List E → List ℕ → Run E T
  attempt_loop o w zero attempt errors pauses = record {
    outcome = unreachable;
    calls = attempt - 1;
    pauses = pauses;
  }
  attempt_loop o w (suc left) attempt errors pauses = elim (w.aborted_before attempt) [
    | true ↦ record { outcome = aborted; calls = attempt - 1; pauses = pauses }
    | false ↦ elim (w.task attempt) [
      | resolved v ↦ record {
        outcome = returned v attempt errors;
        calls = attempt;
        pauses = pauses;
      }
      | rejected e ↦ elim (leb (attempts_of o) attempt || not (may_retry o.retryable e)) [
        | true ↦ record { outcome = threw e; calls = attempt; pauses = pauses }
        | false ↦ elim (w.aborted_in_pause attempt (w.jittered attempt (raw_pause o attempt))) [
          | true ↦ record {
            outcome = aborted;
            calls = attempt;
            pauses = pauses ++ (raw_pause o attempt ∷ []);
          }
          | false ↦
              attempt_loop o w left (attempt + 1) (errors ++ (e ∷ []))
                (pauses ++ (raw_pause o attempt ∷ []))
        ]
      ]
    ]
  ]

  unfoldable pub attempt_with_retry : RetryOptions E → Surroundings E T → Run E T
  unfolding attempt_loop
  attempt_with_retry o w = attempt_loop o w (attempts_of o) 1 [] []
