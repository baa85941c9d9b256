-- ===== src/Concurrency/Tests.antt =====
-- Runs of the bounded-execution primitives, and their theorems at concrete inputs.
use proxy_pulse_crunchyroll.Prelude.{
  ℕ, ◌-◌, ◌*◌, ◌<◌, ◌≤◌, min, max, ◌≡◌, refl, ◌⊎◌, true, false, List, [], ◌∷◌, none, some, arith,
  ltb, if◌then◌else◌, length,
}
use proxy_pulse_crunchyroll.Concurrency.TokenBucket.{
  TokenBucket, taken, refill, try_take, take_tokens, pause,
}
use proxy_pulse_crunchyroll.Concurrency.TokenBucket.Rate.{Call, IsBucket, run_calls}
use proxy_pulse_crunchyroll.Concurrency.TokenBucket.Waiting.{take_tokens_resolves}
use proxy_pulse_crunchyroll.Concurrency.Retry
use proxy_pulse_crunchyroll.Concurrency.Retry.{RetryOptions, Surroundings, Run, attempt_with_retry}
use proxy_pulse_crunchyroll.Concurrency.Retry.Attempts.{RunFacts, attempt_with_retry_facts}
use proxy_pulse_crunchyroll.Concurrency.Pool.{
  Batch, Step, Steps, here, next, take_item, settle_item, retire, start, IsDone,
}
use proxy_pulse_crunchyroll.Concurrency.Pool
use proxy_pulse_crunchyroll.Concurrency.Pool.Results.{left, in_flight_bound, batch_ends}
use proxy_pulse_crunchyroll.Concurrency.Mutex.{Event, call, settle, create_mutex, run_events, step}

-- Two tokens of 60000 shares, at 500 shares in a millisecond: 30 tokens in a minute.
abbrev bucket : TokenBucket
bucket = record { capacity = 2; unit = 60000; rate = 500; tokens = 120000; last_refill = 100 }

abbrev calls : List Call
calls =
    record { at = 100; count = 1 }
    ∷ record { at = 90; count = 1 }
    ∷ record { at = 200; count = 1 }
    ∷ []

granted_two : (run_calls calls bucket 0).1 ≡ 2
unfolding run_calls try_take refill
granted_two = refl

full_bucket : IsBucket bucket
full_bucket = record { full = omega arith }

-- The bucket above, two tokens short.
abbrev drained : TokenBucket
drained = record bucket { tokens = 0 }

take_run :
    take_tokens 9 (λ n. false) 100 2 drained
    ≡ taken 340 (record drained { tokens = 0; last_refill = 340 })
unfolding take_tokens refill pause
take_run = refl

missing_shares : 2 * drained.unit - (refill 100 drained).tokens < 120001
unfolding refill
missing_shares = omega arith

take_tokens_resolves_example :
    (t : ℕ) × (r : TokenBucket) × (take_tokens 120001 (λ n. false) 100 2 drained ≡ taken t r)
    × (100 ≤ t)
unfolding refill
take_tokens_resolves_example =
    take_tokens_resolves 120001 100 2 drained (omega arith) (omega arith) (omega arith)
      missing_shares

-- Fails twice, and then gives 7.
abbrev third_time : Surroundings ℕ ℕ
third_time = record {
  task = λ n. if ltb n 3 then Retry.rejected n else Retry.resolved 7;
  aborted_before = λ n. false;
  aborted_in_pause = λ n ms. false;
  jittered = λ n raw. raw;
}

abbrev defaults : RetryOptions ℕ
defaults = record {
  attempts = none;
  base_delay_ms = none;
  max_delay_ms = some 300;
  factor = none;
  retryable = none;
}

retry_run :
    attempt_with_retry defaults third_time
    ≡ record { outcome = Retry.returned 7 3 (1 ∷ 2 ∷ []); calls = 3; pauses = 250 ∷ 300 ∷ [] }
unfolding attempt_with_retry
retry_run = refl

attempt_with_retry_facts_example :
    RunFacts defaults third_time (attempt_with_retry defaults third_time)
attempt_with_retry_facts_example = attempt_with_retry_facts defaults third_time

abbrev one_item : Batch ℕ ℕ
one_item = start ℕ ℕ 4 1

abbrev one_done : Batch ℕ ℕ
one_done = record {
  total = 1;
  cursor = 2;
  idle = 0;
  in_flight = [];
  results = (0, Pool.fulfilled 5) ∷ [];
}

one_run : Steps one_item one_done
one_run =
    next
      (next (next here (take_item (omega arith) (omega arith)))
        (settle_item [] [] 0 (Pool.fulfilled 5) refl))
      (retire (omega arith) (omega arith))

in_flight_bound_example :
    (length one_done.in_flight ≤ max 1 4)
    × (length one_done.in_flight ≤ 1)
    × ((u : Batch ℕ ℕ) × Steps (start ℕ ℕ 4 1) u × (length u.in_flight ≡ min (max 1 4) 1))
in_flight_bound_example = in_flight_bound 4 1 one_done one_run

batch_ends_example :
    (IsDone one_item ⊎ ((t : Batch ℕ ℕ) × Step one_item t))
    × ((t : Batch ℕ ℕ) → Step one_item t → left t < left one_item)
batch_ends_example = batch_ends one_item

abbrev events : List Event
events = call ∷ call ∷ settle ∷ settle ∷ call ∷ []

mutex_run :
    run_events create_mutex events
    ≡ record { running = true; started = 2; settled = 1; refused = 1 }
unfolding run_events step
mutex_run = refl
