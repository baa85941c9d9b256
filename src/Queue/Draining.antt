-- ===== src/Queue/Draining.antt =====
-- A drain ends, accounts for every job, and calls the handler a bounded number of times.
use proxy_pulse_crunchyroll.Prelude.{
  ℕ, zero, suc, ◌+◌, ◌<◌, ◌≤◌, max, ◌≡◌, refl, ◌∙◌, inl, inr, true, false, ◌&&◌, List, [], ◌∷◌,
  Option, none, some, arith, and-eq-true, Bool-cases, some-eq, length,
}
use proxy_pulse_crunchyroll.Queue.{
  ProxyJob, MemoryQueue, Drain, Outside, ConsumeOptions, ConsumeSummary, run_round, drain, consume,
  start_drain, has_work, has_budget, summarise,
}
use proxy_pulse_crunchyroll.Queue.Rounds.{work, run_round_facts, allowance}

-- What holds between the state in which a drain starts and the one in which it ends.
pub record DrainFacts (q : MemoryQueue) (w : Outside) (d r : Drain) : Type 0 where
  pub kept : r.processed + r.dropped + length r.waiting ≡ d.processed + d.dropped + length d.waiting
  pub spent :
      work q.max_attempts r.waiting + r.processed + r.failed
      ≤ work q.max_attempts d.waiting + d.processed + d.failed
  pub fits : length d.waiting ≤ q.capacity → length r.waiting ≤ q.capacity
  pub capped : allowance r ≡ allowance d
  pub ended : ((n : ℕ) → w.aborted n ≡ false) → (has_work r.waiting && has_budget r.budget) ≡ false

module _ (q : MemoryQueue) (limit : ℕ) (w : Outside) (h : 0 < limit) where
  one_round :
      (round : ℕ) (d r : Drain)
      → DrainFacts q w (run_round q limit (w.succeeds round) d) r
      → DrainFacts q w d r
  one_round round d r f =
      let g = run_round_facts q limit (w.succeeds round) d in
      record {
        kept = omega arith;
        spent = omega arith;
        fits = omega arith;
        capped = f.capped ∙ g.capped;
        ended = f.ended;
      }

  last_round :
      (round : ℕ) (d : Drain)
      → w.aborted round ≡ true
      → DrainFacts q w d (run_round q limit (w.succeeds round) d)
  last_round round d a =
      let g = run_round_facts q limit (w.succeeds round) d in
      record {
        kept = g.kept;
        spent = g.spent;
        fits = g.fits;
        capped = g.capped;
        ended = λ never. cc (never round);
      }

  drain_facts :
      (fuel round : ℕ) (d : Drain)
      → work q.max_attempts d.waiting < fuel
      → (r : Drain) × (drain fuel q limit w round d ≡ some r) × DrainFacts q w d r
  unfolding drain
  drain_facts zero round d m = absurd (omega arith)
  drain_facts (suc fuel) round d m = elim (Bool-cases (has_work d.waiting && has_budget d.budget)) [
    | inr done ↦ (
      d,
      ground arith,
      record {
        kept = refl;
        spent = omega arith;
        fits = λ k. k;
        capped = refl;
        ended = λ never. done;
      },
    )
    | inl more ↦ elim (Bool-cases (w.aborted round)) [
      | inl stop ↦ (run_round q limit (w.succeeds round) d, ground arith, last_round round d stop)
      | inr go ↦
          let (k, l) = and-eq-true (has_work d.waiting) (has_budget d.budget) more in
          let g = run_round_facts q limit (w.succeeds round) d in
          let s = g.shrinks h k l in
          let (r, e, f) =
            drain_facts fuel (round + 1) (run_round q limit (w.succeeds round) d) (omega arith) in
          (r, ground arith, one_round round d r f)
    ]
  ]

-- A number of calls within `maxJobs`, where that is given.
abbrev pub WithinLimit : Option ℕ → ℕ → Type 0
WithinLimit none calls = Unit {0}
WithinLimit (some n) calls = calls ≤ n

-- What a caller may rely on when `consume` returns `r`.
pub record Consumed (q : MemoryQueue) (options : ConsumeOptions) (r : MemoryQueue × ConsumeSummary)
    : Type 0 where
  pub accounted : (r.1).processed + (r.0).dropped + length (r.0).queue ≡ q.dropped + length q.queue
  pub reported : ((r.1).dropped ≡ (r.0).dropped) × ((r.1).enqueued ≡ length q.queue)
  pub deliveries : (r.1).processed + (r.1).failed ≤ work q.max_attempts q.queue
  pub within : WithinLimit options.max_jobs ((r.1).processed + (r.1).failed)
  pub bounded : length (r.0).queue ≤ q.capacity

within_allowance :
    (d : Drain) (b : Option ℕ) (n : ℕ)
    → d.budget ≡ b
    → allowance d ≡ some n
    → d.processed + d.failed ≤ n
within_allowance d none n e a = let c : none ≡ some n = rw (e, allowance) at a in cc
within_allowance d (some b) n e a =
    let c : some (d.processed + d.failed + b) ≡ some n = rw (e, allowance) at a in
    omega (arith, some-eq c)

allowance_start :
    (q : MemoryQueue) (options : ConsumeOptions) (n : ℕ)
    → options.max_jobs ≡ some n
    → allowance (start_drain q options) ≡ some n
allowance_start q options n e = rw (e, allowance) (let z : 0 + 0 + n ≡ n = omega arith in rw z refl)

waiting_none :
    (d : Drain) (b : Option ℕ) (ws : List ProxyJob)
    → d.budget ≡ b
    → d.waiting ≡ ws
    → allowance d ≡ none
    → (has_work d.waiting && has_budget d.budget) ≡ false
    → d.waiting ≡ []
waiting_none d none [] e f a h = f
waiting_none d none (j ∷ js) e f a h = let c : true ≡ false = rw (e, f) at h in cc
waiting_none d (some b) ws e f a h =
    let c : some (d.processed + d.failed + b) ≡ none = rw (e, allowance) at a in cc

within_limit :
    (q : MemoryQueue) (options : ConsumeOptions) (d : Drain) (m : Option ℕ)
    → options.max_jobs ≡ m
    → allowance d ≡ allowance (start_drain q options)
    → WithinLimit m (d.processed + d.failed)
within_limit q options d none e c = tt
within_limit q options d (some n) e c =
    within_allowance d d.budget n refl (c ∙ allowance_start q options n e)

-- With more fuel than the deliveries that the waiting jobs may cost, a drain of a backlog within
-- its capacity ends; what it returns accounts for every job (processed, dropped or still waiting),
-- reports the drops and the initial backlog, has called the handler no more often than the jobs'
-- remaining attempts and `maxJobs` allow, and keeps the backlog within the capacity.
pub consume-Consumed :
    (q : MemoryQueue) (options : ConsumeOptions) (w : Outside) (fuel : ℕ)
    → length q.queue ≤ q.capacity
    → work q.max_attempts q.queue < fuel
    → (r : MemoryQueue × ConsumeSummary) × (consume fuel q options w ≡ some r)
      × Consumed q options r
unfolding consume
consume-Consumed q options w fuel fits h =
    let limit : ℕ = max 1 options.concurrency in
    let (d, e, f) = drain_facts q limit w (omega arith) fuel 0 (start_drain q options) h in
    (
      summarise q d,
      rw e refl,
      record {
        accounted = omega (arith, f.kept);
        reported = (refl, refl);
        deliveries = omega (arith, f.spent);
        within = within_limit q options d options.max_jobs refl f.capped;
        bounded = f.fits fits;
      },
    )

-- With neither `maxJobs` nor an abort, a drain with more fuel than the deliveries that the waiting jobs
-- may cost leaves nothing waiting.
pub consume_empties :
    (q : MemoryQueue) (options : ConsumeOptions) (w : Outside) (fuel : ℕ)
    → options.max_jobs ≡ none
    → ((n : ℕ) → w.aborted n ≡ false)
    → work q.max_attempts q.queue < fuel
    → (r : MemoryQueue × ConsumeSummary) × (consume fuel q options w ≡ some r) × ((r.0).queue ≡ [])
unfolding consume
consume_empties q options w fuel k never h =
    let limit : ℕ = max 1 options.concurrency in
    let (d, e, f) = drain_facts q limit w (omega arith) fuel 0 (start_drain q options) h in
    (
      summarise q d,
      rw e refl,
      waiting_none d d.budget d.waiting refl refl (f.capped ∙ (rw (k, allowance) refl))
          (f.ended never),
    )
