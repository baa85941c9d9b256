-- ===== src/Queue/Cloudflare/Consuming.antt =====
-- worker/src/queue/cloudflare-queue.ts: consume. A round pulls messages, runs their jobs in batches, and
-- acknowledges the leases or asks for a retry.
pub mod Settling
pub mod Rounds
pub mod Ending
use proxy_pulse_crunchyroll.Prelude.{
  ℕ, zero, suc, ◌+◌, ◌-◌, Bool, true, false, not, ◌&&◌, ◌||◌, List, [], ◌∷◌, ◌++◌, map, Option,
  none, some, ltb, leb, ◌==◌, if◌then◌else◌, ◌>>=◌, length, any, keep, chunks,
}
use proxy_pulse_crunchyroll.Text.{Text, text_eq}
use proxy_pulse_crunchyroll.Queue.{
  Value, undefined, other, string, number, ProxyJob, is_proxy_job, attempt_of, ConsumeSummary,
}
use proxy_pulse_crunchyroll.Queue.Cloudflare.{
  CloudflareQueue, send_many, Body, absent, scalar, object, PullAnswer, PulledMessage, messages_of,
  pull_size_for,
}

-- What is done with a message: `isProxyJob` of its body, and the handler.
abbrev pub is_valid : PulledMessage → Bool
is_valid m = elim m.body [ absent ↦ false | scalar ↦ false | object job ↦ is_proxy_job job ]

abbrev pub attempts : PulledMessage → ℕ
attempts m = elim m.body [ absent ↦ 1 | scalar ↦ 1 | object job ↦ attempt_of job ]

abbrev pub handles : (ProxyJob → Bool) → PulledMessage → Bool
handles succeeds m = elim m.body [
  | absent ↦ true
  | scalar ↦ true
  | object job ↦ not (is_proxy_job job) || succeeds job
]

-- Whether the lease of a message goes to `retryLeases`.
abbrev pub is_retried : ℕ → (ProxyJob → Bool) → PulledMessage → Bool
is_retried max_retries succeeds m = not (handles succeeds m) && leb (attempts m + 1) max_retries

-- The summary, and `acks` and `retryLeases` of a round.
pub record Progress : Type 0 where
  pub processed : ℕ
  pub failed : ℕ
  pub dropped : ℕ
  pub acks : List Text
  pub retries : List Text

abbrev pub leases : List PulledMessage → List Text
leases ms = map (λ m. m.lease_id) ms

-- One outcome of a batch, when `retries` are the leases to retry so far.
abbrev settle_outcome : (ProxyJob → Bool) → PulledMessage → Progress → Progress
settle_outcome succeeds m p = record {
  processed = if handles succeeds m then p.processed + 1 else p.processed;
  failed = if handles succeeds m then p.failed else p.failed + 1;
  dropped = if is_valid m then p.dropped else p.dropped + 1;
  acks = if any (text_eq m.lease_id) p.retries then p.acks else p.acks ++ (m.lease_id ∷ []);
  retries = p.retries;
}

unfoldable pub settle_outcomes : (ProxyJob → Bool) → List PulledMessage → Progress → Progress
settle_outcomes succeeds [] p = p
settle_outcomes succeeds (m ∷ ms) p = settle_outcomes succeeds ms (settle_outcome succeeds m p)

-- One batch: the handlers run first, and then the outcomes are counted.
unfoldable pub settle_batch : ℕ → (ProxyJob → Bool) → List PulledMessage → Progress → Progress
unfolding settle_outcomes
settle_batch max_retries succeeds batch p =
    settle_outcomes succeeds batch
      (record p { retries = p.retries ++ leases (keep (is_retried max_retries succeeds) batch) })

unfoldable pub settle_batches :
    ℕ → (ProxyJob → Bool) → List (List PulledMessage) → Progress → Progress
unfolding settle_batch
settle_batches max_retries succeeds [] p = p
settle_batches max_retries succeeds (batch ∷ batches) p =
    settle_batches max_retries succeeds batches (settle_batch max_retries succeeds batch p)

pub record PullOptions : Type 0 where
  pub concurrency : ℕ
  pub drain_only : Bool
  pub max_jobs : Option ℕ

-- The world in each round: whether the queue is found closed or the signal aborted, the answer to a pull of
-- a size, and whether the handler succeeds on a job.
pub record Remote : Type 0 where
  pub stopped : ℕ → Bool
  pub pull : ℕ → ℕ → PullAnswer
  pub succeeds : ℕ → ProxyJob → Bool

-- The variables of `consume`, and the bodies of the requests to `/messages/ack`.
pub record Pulling : Type 0 where
  pub summary : ConsumeSummary
  pub handled : ℕ
  pub acked : List (List Text × List Text)

-- The part of a round that follows a pull with messages in it.
unfoldable pub handle_messages :
    CloudflareQueue → PullOptions → (ProxyJob → Bool) → List PulledMessage → Pulling → Pulling
unfolding settle_batches
handle_messages q options succeeds messages p =
    let t = settle_batches q.max_retries succeeds (chunks options.concurrency messages) (record {
      processed = p.summary.processed;
      failed = p.summary.failed;
      dropped = p.summary.dropped;
      acks = [];
      retries = [];
    }) in
    record {
      summary = record {
        processed = t.processed;
        failed = t.failed;
        dropped = t.dropped;
        enqueued = p.summary.enqueued;
      };
      handled = p.handled + length messages;
      acked = p.acked ++ ((t.acks, t.retries) ∷ []);
    }

-- `handled >= budget`
abbrev pub is_spent : Option ℕ → ℕ → Bool
is_spent none handled = false
is_spent (some budget) handled = leb budget handled

abbrev left_of : Option ℕ → ℕ → Option ℕ
left_of none handled = none
left_of (some budget) handled = some (budget - handled)

-- The messages of the pull of a round.
abbrev pub pull_round : CloudflareQueue → PullOptions → Remote → ℕ → Pulling → List PulledMessage
pull_round q options w round p =
    messages_of (w.pull round (pull_size_for q.pull_size (left_of options.max_jobs p.handled)))

-- The loop on fuel; `none` means that the fuel ran out.
unfoldable pub pull_loop : ℕ → CloudflareQueue → PullOptions → Remote → ℕ → Pulling → Option Pulling
pull_loop zero q options w round p = none
pull_loop (suc fuel) q options w round p =
    elim (w.stopped round || is_spent options.max_jobs p.handled) [
      | true ↦ some p
      | false ↦
          let messages = pull_round q options w round p in
          let next = handle_messages q options (w.succeeds round) messages p in
          let stays = pull_loop fuel q options w (round + 1) p in
          let goes = pull_loop fuel q options w (round + 1) next in
          if length messages == 0
          then (if options.drain_only then some p else stays)
          else if options.drain_only && ltb (length messages) q.pull_size
          then some next
          else goes
    ]

abbrev pub start_pulling : CloudflareQueue → Pulling
start_pulling q = record {
  summary = record { processed = 0; failed = 0; dropped = 0; enqueued = length q.outbound };
  handled = 0;
  acked = [];
}

-- The queue afterwards, what the loop has done, and the requests for the jobs that were waiting.
unfoldable pub consume :
    (List ProxyJob → Bool)
    → ℕ
    → CloudflareQueue
    → PullOptions
    → Remote
    → Option (CloudflareQueue × Pulling × List (List ProxyJob))
unfolding send_many pull_loop
consume accepts fuel q options w =
    let produced = send_many accepts (record q { outbound = [] }) q.outbound in
    pull_loop fuel q options w 0 (start_pulling q) >>= λ p. some (
      produced.0,
      record p { summary = record p.summary { dropped = p.summary.dropped + q.dropped } },
      produced.1,
    )
