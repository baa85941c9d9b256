-- ===== src/Queue/Tests.antt =====
-- Runs of the queue, and its theorems at concrete inputs.
use proxy_pulse_crunchyroll.Prelude.{ℕ, ◌≡◌, refl, false, List, [], ◌∷◌, none, some, arith, ltb}
use mathlib.Core.Option
use proxy_pulse_crunchyroll.Text.{codes}
use proxy_pulse_crunchyroll.Queue.{
  Value, undefined, string, number, ProxyJob, MemoryQueue, Outside, ConsumeOptions, ConsumeSummary,
  send, send_many, consume, is_proxy_job, run_round,
}
use proxy_pulse_crunchyroll.Queue.Draining.{Consumed, consume-Consumed, consume_empties}

abbrev job : ℕ → Value → ProxyJob
job n id = record {
  job_id = id;
  type = string (codes "VALIDATE");
  cycle_id = string (codes "c1");
  issued_at = codes "2024-01-01T00:00:00.000Z";
  proxy_id = number n;
  reason = none;
  attempt = none;
}

-- Capacity 2, with one job waiting.
abbrev half_full : MemoryQueue
half_full = record {
  queue = record (job 1 (string (codes "a"))) { attempt = some 1 } ∷ [];
  capacity = 2;
  max_attempts = 2;
  dropped = 0;
}

abbrev more_jobs : List ProxyJob
more_jobs = job 2 (string (codes "b")) ∷ job 3 undefined ∷ job 4 (string (codes "d")) ∷ []

-- The handler fails in the first round only.
abbrev flaky : Outside
flaky = record { succeeds = λ n j. ltb 0 n; aborted = λ n. false }

abbrev one_at_a_time : ConsumeOptions
one_at_a_time = record { concurrency = 0; max_jobs = none }

send_many_run : (send_many half_full more_jobs).1 ≡ 1
unfolding send_many send is_proxy_job
send_many_run = refl

consume_run :
    Option.map (λ r. r.1) (consume 5 half_full one_at_a_time flaky)
    ≡ some (record { processed = 1; failed = 1; dropped = 0; enqueued = 1 })
unfolding consume run_round
consume_run = refl

consume-Consumed_example :
    (r : MemoryQueue × ConsumeSummary) × (consume 3 half_full one_at_a_time flaky ≡ some r)
    × Consumed half_full one_at_a_time r
consume-Consumed_example =
    consume-Consumed half_full one_at_a_time flaky 3 (omega arith) (omega arith)

consume_empties_example :
    (r : MemoryQueue × ConsumeSummary) × (consume 3 half_full one_at_a_time flaky ≡ some r)
    × ((r.0).queue ≡ [])
consume_empties_example =
    consume_empties half_full one_at_a_time flaky 3 refl (λ n. refl) (omega arith)
