-- ===== src/Queue/Cloudflare/Consuming/Rounds.antt =====
-- What a whole round does with its messages.
use proxy_pulse_crunchyroll.Prelude.{
  ℕ, ◌+◌, ◌<◌, ◌≡◌, refl, ap, ◌∙◌, Bool, true, not, List, [], ◌∷◌, ◌++◌, arith, length,
  length-append, keep, join, chunks, join-chunks,
}
use proxy_pulse_crunchyroll.Queue.{ProxyJob}
use proxy_pulse_crunchyroll.Queue.Cloudflare.{CloudflareQueue, PulledMessage}
use proxy_pulse_crunchyroll.Queue.Cloudflare.Consuming.{
  is_valid, handles, is_retried, Progress, leases, settle_outcome, settle_outcomes, settle_batch,
  settle_batches, PullOptions, Pulling, handle_messages,
}
use proxy_pulse_crunchyroll.Queue.Cloudflare.Consuming.Settling.{
  are_distinct, settle_batches-Settled,
}

-- When the leases of a pull are distinct, the round acknowledges each of them or asks for a retry, never
-- both: it asks for a retry of those whose job is valid, has failed, and counts fewer attempts than
-- `maxRetries` in its body. Each message is counted as processed or as failed, and those that hold no valid
-- job as dropped too.
pub handle_messages-settles :
    (q : CloudflareQueue) (options : PullOptions) (succeeds : ProxyJob → Bool)
    (messages : List PulledMessage) (p : Pulling)
    → 0 < options.concurrency
    → are_distinct messages ≡ true
    → let r = handle_messages q options succeeds messages p in
      let again = is_retried q.max_retries succeeds in
      (r.acked
        ≡ p.acked
          ++ ((leases (keep (λ m. not (again m)) messages), leases (keep again messages)) ∷ []))
      × (r.summary.processed ≡ p.summary.processed + length (keep (handles succeeds) messages))
      × (r.summary.failed
          ≡ p.summary.failed + length (keep (λ m. not (handles succeeds m)) messages))
      × (r.summary.dropped ≡ p.summary.dropped + length (keep (λ m. not (is_valid m)) messages))
unfolding handle_messages
handle_messages-settles q options succeeds messages p h d =
    let whole = join-chunks options.concurrency messages h in
    let start : Progress = record {
      processed = p.summary.processed;
      failed = p.summary.failed;
      dropped = p.summary.dropped;
      acks = [];
      retries = [];
    } in
    let s =
      settle_batches-Settled q.max_retries succeeds (chunks options.concurrency messages) [] start
        start (ap are_distinct whole ∙ d)
        (record {
          processed = omega arith;
          failed = omega arith;
          dropped = omega arith;
          retries = refl;
          acks = refl;
        }) in
    (
      ap (λ acked. p.acked ++ (acked ∷ []))
          (ap
              (λ a. (
                a,
                (settle_batches q.max_retries succeeds (chunks options.concurrency messages)
                    start).retries,
              ))
              s.acks
            ∙ ap
                (λ b. (
                  leases (
                      keep (λ m. not (is_retried q.max_retries succeeds m))
                        (join (chunks options.concurrency messages))),
                  b,
                ))
                s.retries
            ∙ ap
                (λ ms. (
                  leases (keep (λ m. not (is_retried q.max_retries succeeds m)) ms),
                  leases (keep (is_retried q.max_retries succeeds) ms),
                ))
                whole),
      s.processed ∙ ap (λ ms. p.summary.processed + length (keep (handles succeeds) ms)) whole,
      s.failed
          ∙ ap (λ ms. p.summary.failed + length (keep (λ m. not (handles succeeds m)) ms)) whole,
      s.dropped ∙ ap (λ ms. p.summary.dropped + length (keep (λ m. not (is_valid m)) ms)) whole,
    )

counted :
    (succeeds : ProxyJob → Bool) (ms : List PulledMessage) (p : Progress)
    → let r = settle_outcomes succeeds ms p in
      r.processed + r.failed ≡ p.processed + p.failed + length ms
unfolding settle_outcomes
counted succeeds [] p = omega arith
counted succeeds (m ∷ ms) p =
    let f = counted succeeds ms (settle_outcome succeeds m p) in ground (arith, f)

counted_batches :
    (max_retries : ℕ) (succeeds : ProxyJob → Bool) (batches : List (List PulledMessage))
    (p : Progress)
    → let r = settle_batches max_retries succeeds batches p in
      r.processed + r.failed ≡ p.processed + p.failed + length (join batches)
unfolding settle_batches settle_batch
counted_batches max_retries succeeds [] p = omega arith
counted_batches max_retries succeeds (batch ∷ batches) p =
    let f =
      counted_batches max_retries succeeds batches (settle_batch max_retries succeeds batch p) in
    let g =
      counted succeeds batch (record p {
        retries = p.retries ++ leases (keep (is_retried max_retries succeeds) batch);
      }) in
    let l = length-append batch (join batches) in omega (arith, f, g, l)

-- Every message of a round is counted once, whether leases are distinct or not.
pub handle_messages_count :
    (q : CloudflareQueue) (options : PullOptions) (succeeds : ProxyJob → Bool)
    (messages : List PulledMessage) (p : Pulling)
    → 0 < options.concurrency
    → let r = handle_messages q options succeeds messages p in
      r.summary.processed + r.summary.failed
      ≡ p.summary.processed + p.summary.failed + length messages
unfolding handle_messages
handle_messages_count q options succeeds messages p h =
    counted_batches q.max_retries succeeds (chunks options.concurrency messages) (record {
      processed = p.summary.processed;
      failed = p.summary.failed;
      dropped = p.summary.dropped;
      acks = [];
      retries = [];
    })
    ∙ ap (λ ms. p.summary.processed + p.summary.failed + length ms)
        (join-chunks options.concurrency messages h)
