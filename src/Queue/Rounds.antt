-- ===== src/Queue/Rounds.antt =====
-- What one round of a drain conserves and spends.
use proxy_pulse_crunchyroll.Prelude.{
  ℕ, ◌+◌, ◌-◌, ◌<◌, ◌≤◌, min, ◌≡◌, refl, sym, ap, ◌∙◌, Bool, true, List, [], ◌∷◌, ◌++◌, Option,
  none, some, arith, some-eq, length, take, drop, length-append, take-append-drop, length-take,
  length-drop,
}
use proxy_pulse_crunchyroll.Queue.{
  ProxyJob, MemoryQueue, Drain, Tally, attempt_of, retried, settle_one, settle, requeue, run_round,
  batch_size, spend, has_work, has_budget,
}

-- The deliveries that a job may still cost.
abbrev pub weight : ℕ → ProxyJob → ℕ
weight most job = most - attempt_of job + 1

abbrev pub work : ℕ → List ProxyJob → ℕ
work most [] = 0
work most (job ∷ jobs) = weight most job + work most jobs

work-append :
    (most : ℕ) (xs ys : List ProxyJob) → work most (xs ++ ys) ≡ work most xs + work most ys
work-append most [] ys = omega arith
work-append most (x ∷ xs) ys = omega (arith, work-append most xs ys)

work-take-drop :
    (most n : ℕ) (xs : List ProxyJob) → work most (take n xs) + work most (drop n xs) ≡ work most xs
work-take-drop most n xs =
    sym (work-append most (take n xs) (drop n xs)) ∙ ap (work most) (take-append-drop n xs)

module _ (most : ℕ) where
  requeue_facts :
      (capacity : ℕ) (jobs waiting : List ProxyJob) (dropped : ℕ)
      → let r = requeue capacity jobs waiting dropped in
        (length r.0 + r.1 ≡ length waiting + length jobs + dropped)
        × (work most r.0 ≤ work most waiting + work most jobs)
        × (length waiting ≤ capacity → length r.0 ≤ capacity)
        × (length waiting + length jobs ≤ capacity → r.1 ≡ dropped)
  unfolding requeue
  requeue_facts capacity [] waiting dropped = (omega arith, omega arith, λ h. h, λ h. refl)
  requeue_facts capacity (job ∷ jobs) waiting dropped = ground (
    arith,
    length-append waiting (job ∷ []),
    work-append most waiting (job ∷ []),
    requeue_facts capacity jobs (waiting ++ (job ∷ [])) dropped,
    requeue_facts capacity jobs waiting (dropped + 1),
  )

  settle_facts :
      (succeeds : ProxyJob → Bool) (jobs : List ProxyJob) (t : Tally)
      → let r = settle most succeeds jobs t in
        (r.processed + r.dropped + length r.retryable
          ≡ t.processed + t.dropped + length t.retryable + length jobs)
        × (r.processed + r.failed ≡ t.processed + t.failed + length jobs)
        × (work most r.retryable + length jobs ≤ work most t.retryable + work most jobs)
        × (length r.retryable ≤ length t.retryable + length jobs)
  unfolding settle
  settle_facts succeeds [] t = omega arith
  settle_facts succeeds (job ∷ jobs) t = ground (
    arith,
    length-append t.retryable (retried job ∷ []),
    work-append most t.retryable (retried job ∷ []),
    settle_facts succeeds jobs (settle_one most (succeeds job) job t),
  )

batch_length :
    (limit : ℕ) (budget : Option ℕ) (waiting : List ProxyJob)
    → 0 < limit
    → has_work waiting ≡ true
    → has_budget budget ≡ true
    → 0 < length (take (batch_size limit budget) waiting)
batch_length limit budget waiting h k l =
    omega (
      arith,
      length-take (batch_size limit budget) waiting,
      positive limit budget h l,
      pos waiting k,
    )
  where
    positive :
        (limit : ℕ) (budget : Option ℕ)
        → 0 < limit
        → has_budget budget ≡ true
        → 0 < batch_size limit budget
    positive limit none h l = h
    positive limit (some b) h l = ground arith

    pos : (waiting : List ProxyJob) → has_work waiting ≡ true → 0 < length waiting
    pos [] k = cc
    pos (x ∷ xs) k = omega arith

-- The number of calls of the handler that are allowed in all, where there is a limit.
abbrev pub allowance : Drain → Option ℕ
allowance d = elim d.budget [ none ↦ none | some b ↦ some (d.processed + d.failed + b) ]

spend_exact :
    (limit : ℕ) (budget : Option ℕ) (xs : List ProxyJob) (b : ℕ)
    → budget ≡ some b
    → length (take (batch_size limit budget) xs) ≤ b
spend_exact limit none xs b e = cc
spend_exact limit (some c) xs b e =
    let e' : c ≡ b = some-eq e in omega (arith, length-take (min limit c) xs)

capped_by :
    (budget : Option ℕ) (n calls calls' : ℕ)
    → ((b : ℕ) → budget ≡ some b → n ≤ b)
    → calls' ≡ calls + n
    → ◌≡◌ {A = Option ℕ}
        (elim (spend n budget) [ none ↦ none | some b ↦ some (calls' + b) ])
        (elim budget [ none ↦ none | some b ↦ some (calls + b) ])
capped_by none n calls calls' h e = refl
capped_by (some b) n calls calls' h e =
    let k : n ≤ b = h b refl in let e' : calls' + (b - n) ≡ calls + b = omega arith in rw e' refl

-- A round gives every job that it takes up as processed, dropped or waiting again.
pub record RoundFacts (q : MemoryQueue) (limit : ℕ) (d r : Drain) : Type 0 where
  pub kept : r.processed + r.dropped + length r.waiting ≡ d.processed + d.dropped + length d.waiting
  pub spent :
      work q.max_attempts r.waiting + r.processed + r.failed
      ≤ work q.max_attempts d.waiting + d.processed + d.failed
  pub fits : length d.waiting ≤ q.capacity → length r.waiting ≤ q.capacity
  pub shrinks :
      0 < limit
      → has_work d.waiting ≡ true
      → has_budget d.budget ≡ true
      → work q.max_attempts r.waiting < work q.max_attempts d.waiting
  pub capped : allowance r ≡ allowance d

pub run_round_facts :
    (q : MemoryQueue) (limit : ℕ) (succeeds : ProxyJob → Bool) (d : Drain)
    → RoundFacts q limit d (run_round q limit succeeds d)
unfolding run_round
run_round_facts q limit succeeds d =
    let size = batch_size limit d.budget in
    let batch = take size d.waiting in
    let t : Tally = record {
      processed = d.processed;
      failed = d.failed;
      dropped = d.dropped;
      retryable = [];
    } in
    let s = settle q.max_attempts succeeds batch t in
    let sf = settle_facts q.max_attempts succeeds batch t in
    let rf = requeue_facts q.max_attempts q.capacity s.retryable (drop size d.waiting) s.dropped in
    let wf = work-take-drop q.max_attempts size d.waiting in
    let lf = length-take size d.waiting in
    let df = length-drop size d.waiting in
    record {
      kept = omega arith;
      spent = omega arith;
      fits = omega arith;
      shrinks = λ h k l. (let b = batch_length limit d.budget d.waiting h k l in omega arith);
      capped =
          capped_by d.budget (length batch) (d.processed + d.failed) (s.processed + s.failed)
            (spend_exact limit d.budget d.waiting) (omega arith);
    }
