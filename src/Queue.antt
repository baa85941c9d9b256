-- ===== src/Queue.antt =====
-- worker/src/queue/types.ts and memory-queue.ts: the in-process job queue. The handler is a
-- parameter, asked for each job of a round; jobs that other code sends while a round is awaited
-- are not modelled, as the pipeline sends before it consumes.
pub mod Sending
pub mod Rounds
pub mod Draining
pub mod Cloudflare
mod Tests
use proxy_pulse_crunchyroll.Prelude.{
  ◌>>=◌, ℕ, zero, suc, ◌+◌, ◌-◌, min, max, Bool, true, false, not, ◌&&◌, List, [], ◌∷◌, ◌++◌,
  Option, none, some, ltb, leb, if◌then◌else◌, or_default, length, take, drop, any,
}
use proxy_pulse_crunchyroll.Text.{Text, codes, text_eq}

-- A field of a job as it is found at run time.
pub data Value : Type 0 where
  undefined other : Value
  string : Text → Value
  number : ℕ → Value

pub data RecheckReason : Type 0 where
  fresh recheck revive manual stale_service : RecheckReason

pub record ProxyJob : Type 0 where
  pub job_id : Value
  pub type : Value
  pub cycle_id : Value
  pub issued_at : Text
  pub proxy_id : Value
  pub reason : Option RecheckReason
  pub attempt : Option ℕ

abbrev job_types : List Text
job_types =
    codes "DISCOVER"
    ∷ codes "VALIDATE"
    ∷ codes "SERVICE_CHECK"
    ∷ codes "RECHECK"
    ∷ codes "POOL_UPDATE"
    ∷ codes "STATS_UPDATE"
    ∷ []

is_string : Value → Bool
is_string (string s) = true
is_string undefined = false
is_string other = false
is_string (number n) = false

is_job_type : Value → Bool
is_job_type (string s) = any (text_eq s) job_types
is_job_type undefined = false
is_job_type other = false
is_job_type (number n) = false

is_optional_number : Value → Bool
is_optional_number (number n) = true
is_optional_number undefined = true
is_optional_number other = false
is_optional_number (string s) = false

unfoldable pub is_proxy_job : ProxyJob → Bool
unfolding is_string is_job_type is_optional_number
is_proxy_job job =
    is_string job.job_id
    && is_string job.cycle_id
    && is_string job.type
    && is_job_type job.type
    && is_optional_number job.proxy_id

pub record MemoryQueue : Type 0 where
  pub queue : List ProxyJob
  pub capacity : ℕ
  pub max_attempts : ℕ
  pub dropped : ℕ

unfoldable pub new_queue : ℕ → Option ℕ → MemoryQueue
new_queue capacity max_attempts = record {
  queue = [];
  capacity = capacity;
  max_attempts = or_default max_attempts 2;
  dropped = 0;
}

unfoldable pub pending : MemoryQueue → ℕ
pending q = length q.queue

unfoldable pub close : MemoryQueue → MemoryQueue
close q = record q { queue = [] }

-- `job.attempt ?? 1`
abbrev pub attempt_of : ProxyJob → ℕ
attempt_of job = or_default job.attempt 1

abbrev pub stamped : ProxyJob → ProxyJob
stamped job = record job { attempt = some (attempt_of job) }

unfoldable pub send : MemoryQueue → ProxyJob → MemoryQueue × Bool
send q job =
    if not (is_proxy_job job)
    then (q, false)
    else if leb q.capacity (length q.queue)
    then (record q { dropped = q.dropped + 1 }, false)
    else (record q { queue = q.queue ++ (stamped job ∷ []) }, true)

-- The loop of `sendMany`, with the count of the jobs that were sent.
send_many_from : MemoryQueue → ℕ → List ProxyJob → MemoryQueue × ℕ
send_many_from q sent [] = (q, sent)
send_many_from q sent (job ∷ jobs) =
    send_many_from (send q job).0 (if (send q job).1 then sent + 1 else sent) jobs

unfoldable pub send_many : MemoryQueue → List ProxyJob → MemoryQueue × ℕ
unfolding send_many_from
send_many q jobs = send_many_from q 0 jobs

pub record ConsumeOptions : Type 0 where
  pub concurrency : ℕ
  pub max_jobs : Option ℕ

-- The world outside a drain: whether the handler succeeds on a job in a given round, and whether
-- the signal is found aborted after it.
pub record Outside : Type 0 where
  pub succeeds : ℕ → ProxyJob → Bool
  pub aborted : ℕ → Bool

-- The variables of `consume`; `budget` is `none` for infinity.
pub record Drain : Type 0 where
  pub waiting : List ProxyJob
  pub dropped : ℕ
  pub processed : ℕ
  pub failed : ℕ
  pub budget : Option ℕ

-- What a round has counted, and the jobs that it will requeue.
pub record Tally : Type 0 where
  pub processed : ℕ
  pub failed : ℕ
  pub dropped : ℕ
  pub retryable : List ProxyJob

abbrev retried : ProxyJob → ProxyJob
retried job = record job { attempt = some (attempt_of job + 1) }

-- One result of a batch.
settle_one : ℕ → Bool → ProxyJob → Tally → Tally
settle_one max_attempts succeeded job t =
    if succeeded
    then record t { processed = t.processed + 1 }
    else if ltb (attempt_of job) max_attempts
    then record t { failed = t.failed + 1; retryable = t.retryable ++ (retried job ∷ []) }
    else record t { failed = t.failed + 1; dropped = t.dropped + 1 }

-- The loop over the results of a batch.
settle : ℕ → (ProxyJob → Bool) → List ProxyJob → Tally → Tally
unfolding settle_one
settle max_attempts succeeds [] t = t
settle max_attempts succeeds (job ∷ jobs) t =
    settle max_attempts succeeds jobs (settle_one max_attempts (succeeds job) job t)

-- The loop that requeues at the tail.
requeue : ℕ → List ProxyJob → List ProxyJob → ℕ → List ProxyJob × ℕ
requeue capacity [] waiting dropped = (waiting, dropped)
requeue capacity (job ∷ jobs) waiting dropped =
    let kept = requeue capacity jobs (waiting ++ (job ∷ [])) dropped in
    let lost = requeue capacity jobs waiting (dropped + 1) in
    if ltb (length waiting) capacity then kept else lost

-- `Math.min(limit, budget)`
abbrev pub batch_size : ℕ → Option ℕ → ℕ
batch_size limit none = limit
batch_size limit (some b) = min limit b

abbrev spend : ℕ → Option ℕ → Option ℕ
spend n none = none
spend n (some b) = some (b - n)

abbrev finish_round : ℕ → Option ℕ → List ProxyJob → Tally → Drain
finish_round capacity budget rest t =
    let (waiting, dropped) = requeue capacity t.retryable rest t.dropped in
    record {
      waiting = waiting;
      dropped = dropped;
      processed = t.processed;
      failed = t.failed;
      budget = budget;
    }

-- The body of the `while` loop.
unfoldable pub run_round : MemoryQueue → ℕ → (ProxyJob → Bool) → Drain → Drain
unfolding settle requeue
run_round q limit succeeds d =
    let size = batch_size limit d.budget in
    let batch = take size d.waiting in
    finish_round q.capacity (spend (length batch) d.budget) (drop size d.waiting) (
      settle q.max_attempts succeeds batch (record {
        processed = d.processed;
        failed = d.failed;
        dropped = d.dropped;
        retryable = [];
      }))

abbrev pub has_budget : Option ℕ → Bool
has_budget none = true
has_budget (some b) = ltb 0 b

abbrev pub has_work : List ProxyJob → Bool
has_work [] = false
has_work (job ∷ jobs) = true

-- The `while` loop on fuel; `none` means that the fuel ran out.
unfoldable pub drain : ℕ → MemoryQueue → ℕ → Outside → ℕ → Drain → Option Drain
drain zero q limit w round d = none
drain (suc fuel) q limit w round d = elim (has_work d.waiting && has_budget d.budget) [
  | false ↦ some d
  | true ↦ elim (w.aborted round) [
    | true ↦ some (run_round q limit (w.succeeds round) d)
    | false ↦ drain fuel q limit w (round + 1) (run_round q limit (w.succeeds round) d)
  ]
]

pub record ConsumeSummary : Type 0 where
  pub processed : ℕ
  pub failed : ℕ
  pub dropped : ℕ
  pub enqueued : ℕ

abbrev summarise : MemoryQueue → Drain → MemoryQueue × ConsumeSummary
summarise q d = (
  record q { queue = d.waiting; dropped = d.dropped },
  record {
    processed = d.processed;
    failed = d.failed;
    dropped = d.dropped;
    enqueued = length q.queue;
  },
)

abbrev pub start_drain : MemoryQueue → ConsumeOptions → Drain
start_drain q options = record {
  waiting = q.queue;
  dropped = q.dropped;
  processed = 0;
  failed = 0;
  budget = options.max_jobs;
}

unfoldable pub consume :
    ℕ → MemoryQueue → ConsumeOptions → Outside → Option (MemoryQueue × ConsumeSummary)
unfolding drain
consume fuel q options w = do
  d ← drain fuel q (max 1 options.concurrency) w 0 (start_drain q options)
  some (summarise q d)
