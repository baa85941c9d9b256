-- ===== src/Queue/Sending.antt =====
-- What sending does to the backlog.
use proxy_pulse_crunchyroll.Prelude.{
  ℕ, zero, suc, ◌+◌, ◌-◌, ◌<◌, ◌≡◌, refl, sym, ◌∙◌, inl, inr, List, [], ◌∷◌, ◌++◌, append-nil,
  append_assoc, arith, leb, if◌then◌else◌, Bool-cases, length, take, length-append,
}
use proxy_pulse_crunchyroll.Queue.{
  ProxyJob, MemoryQueue, is_proxy_job, stamped, send, send_many_from, send_many,
}

-- The well-formed jobs of a list, in order.
pub accepted : List ProxyJob → List ProxyJob
accepted [] = []
accepted (job ∷ jobs) = if is_proxy_job job then stamped job ∷ accepted jobs else accepted jobs

take-zero {ℓ} : {A : Type ℓ} (n : ℕ) (xs : List A) → n ≡ 0 → take n xs ≡ []
take-zero zero xs e = refl
take-zero (suc n) xs e = cc

take-nil {ℓ} : {A : Type ℓ} (n : ℕ) → take {A = A} n [] ≡ []
take-nil zero = refl
take-nil (suc n) = refl

take-suc {ℓ} :
    {A : Type ℓ} (n : ℕ) (x : A) (xs : List A) → 0 < n → take n (x ∷ xs) ≡ x ∷ take (n - 1) xs
take-suc zero x xs h = absurd (omega arith)
take-suc (suc n) x xs h = let e : suc n - 1 ≡ n = omega arith in rw e refl

room : MemoryQueue → ℕ
room q = q.capacity - length q.queue

-- The room for jobs, by what sending one does.
send_cases :
    (q : MemoryQueue) (job : ProxyJob) (rest : List ProxyJob)
    → (send q job).0.queue ++ take (room (send q job).0) rest
      ≡ q.queue ++ take (room q) (if is_proxy_job job then stamped job ∷ rest else rest)
unfolding send room
send_cases q job rest = elim (Bool-cases (is_proxy_job job)) [
  | inr bad ↦ rw bad refl
  | inl good ↦ elim (Bool-cases (leb q.capacity (length q.queue))) [
    | inl full ↦
        rw (good, full)
          (rw
            (
              take-zero (q.capacity - length q.queue) rest (ground arith),
              take-zero (q.capacity - length q.queue) (stamped job ∷ rest) (ground arith),
            )
            refl)
    | inr free ↦
        rw (good, free)
          (rw
            (take-suc (q.capacity - length q.queue) (stamped job) rest (ground arith), append_assoc)
            (let e : q.capacity - length (q.queue ++ (stamped job ∷ []))
                  ≡ q.capacity - length q.queue - 1 =
                omega (arith, length-append q.queue (stamped job ∷ [])) in
              rw e refl))
  ]
]

send_many_from-queue :
    (q : MemoryQueue) (sent : ℕ) (jobs : List ProxyJob)
    → (send_many_from q sent jobs).0.queue ≡ q.queue ++ take (room q) (accepted jobs)
unfolding send_many_from accepted
send_many_from-queue q sent [] = rw (take-nil (room q)) (sym (append-nil q.queue))
send_many_from-queue q sent (job ∷ jobs) =
    send_many_from-queue (send q job).0 (if (send q job).1 then sent + 1 else sent) jobs
    ∙ send_cases q job (accepted jobs)

-- Sending a list appends, in order, as many of its well-formed jobs as there is room for.
pub send_many-queue :
    (q : MemoryQueue) (jobs : List ProxyJob)
    → (send_many q jobs).0.queue ≡ q.queue ++ take (q.capacity - length q.queue) (accepted jobs)
unfolding send_many room
send_many-queue q jobs = send_many_from-queue q 0 jobs

-- The count and the drops.
send_many_from-count :
    (q : MemoryQueue) (sent : ℕ) (jobs : List ProxyJob)
    → ((send_many_from q sent jobs).1 + length q.queue
        ≡ sent + length (send_many_from q sent jobs).0.queue)
      × ((send_many_from q sent jobs).0.dropped + length (send_many_from q sent jobs).0.queue
          ≡ q.dropped + length q.queue + length (accepted jobs))
unfolding send_many_from send accepted
send_many_from-count q sent [] = omega arith
send_many_from-count q sent (job ∷ jobs) = ground (
  arith,
  length-append q.queue (stamped job ∷ []),
  send_many_from-count (send q job).0 (if (send q job).1 then sent + 1 else sent) jobs,
)

-- The number that is returned counts the jobs that were appended, and every other well-formed job
-- is counted as dropped.
pub send_many_count :
    (q : MemoryQueue) (jobs : List ProxyJob)
    → ((send_many q jobs).1 + length q.queue ≡ length (send_many q jobs).0.queue)
      × ((send_many q jobs).0.dropped + length (send_many q jobs).0.queue
          ≡ q.dropped + length q.queue + length (accepted jobs))
unfolding send_many
send_many_count q jobs = omega (arith, send_many_from-count q 0 jobs)
