-- ===== src/Concurrency/Retry/Attempts.antt =====
-- How often a retried task is started, what comes of it, and how long the pauses are.
use proxy_pulse_crunchyroll.Prelude.{
  ℕ, zero, suc, ◌+◌, ◌<◌, ◌≤◌, ◌≡◌, refl, sym, subst, ◌⊎◌, inl, inr, false, not, ◌||◌, List, [],
  ◌∷◌, ◌++◌, arith, leb, Bool-cases, or_default, length, length-append, All, All-append,
}
use proxy_pulse_crunchyroll.Concurrency.Retry.{
  Settled, resolved, rejected, Outcome, returned, threw, aborted, unreachable, Run, RetryOptions,
  Surroundings, attempts_of, raw_pause, may_retry, attempt_loop, attempt_with_retry,
}

module _ {E T : Type 0} (o : RetryOptions E) (w : Surroundings E T) where
  -- The attempts `first`, `first + 1`, … failed with these errors, in order.
  abbrev pub Failed : ℕ → List E → Type 0
  Failed first [] = Unit {0}
  Failed first (e ∷ es) = (w.task first ≡ rejected e) × Failed (first + 1) es

  -- What each outcome says of the task.
  abbrev pub Explained : Outcome E T → ℕ → Type 0
  Explained (returned v n errors) calls =
      (calls ≡ n) × (w.task n ≡ resolved v) × (length errors + 1 ≡ n) × Failed 1 errors
  Explained (threw e) calls =
      (w.task calls ≡ rejected e) × ((calls ≡ attempts_of o) ⊎ (may_retry o.retryable e ≡ false))
  Explained aborted calls = Unit {0}
  Explained unreachable calls = ⊥

  pub record RunFacts (r : Run E T) : Type 0 where
    pub explained : Explained r.outcome r.calls
    pub bounded : r.calls ≤ attempts_of o
    pub short : All (λ p. p ≤ or_default o.max_delay_ms 4000) r.pauses
    pub paused : length r.pauses ≤ r.calls

  Failed-append :
      (first : ℕ) (es : List E) (n : ℕ) (e : E)
      → first + length es ≡ n
      → Failed first es
      → w.task n ≡ rejected e
      → Failed first (es ++ (e ∷ []))
  Failed-append first [] n e h f t =
      let m : first ≡ n = omega arith in (subst (λ k. w.task k ≡ rejected e) (sym m) t, tt)
  Failed-append first (x ∷ es) n e h (f, fs) t =
      (f, Failed-append (first + 1) es n e (omega arith) fs t)

  short_pause : (n : ℕ) → raw_pause o n ≤ or_default o.max_delay_ms 4000
  short_pause n = omega arith

  task_cases : (n : ℕ) → ((v : T) × (w.task n ≡ resolved v)) ⊎ ((e : E) × (w.task n ≡ rejected e))
  task_cases n = go (w.task n) refl
    where
      go :
          (s : Settled E T)
          → w.task n ≡ s
          → ((v : T) × (w.task n ≡ resolved v)) ⊎ ((e : E) × (w.task n ≡ rejected e))
      go (resolved v) e = inl (v, e)
      go (rejected x) e = inr (x, e)

  attempt_loop_facts :
      (left attempt : ℕ) (errors : List E) (pauses : List ℕ)
      → left + attempt ≡ attempts_of o + 1
      → 0 < attempt
      → length errors + 1 ≡ attempt
      → Failed 1 errors
      → All (λ p. p ≤ or_default o.max_delay_ms 4000) pauses
      → length pauses + 1 ≤ attempt
      → (left ≡ 0 → ⊥)
      → RunFacts (attempt_loop o w left attempt errors pauses)
  unfolding attempt_loop
  attempt_loop_facts zero attempt errors pauses h p l f s c z = absurd (z refl)
  attempt_loop_facts (suc left) attempt errors pauses h p l f s c z =
      elim (Bool-cases (w.aborted_before attempt)) [
        | inl stop ↦
            rw (stop, attempt_loop)
              (record { explained = tt; bounded = omega arith; short = s; paused = omega arith })
        | inr go ↦ elim (task_cases attempt) [
          | inl (v, t) ↦
              rw (go, t, attempt_loop)
                (record {
                  explained = (refl, t, l, f);
                  bounded = omega arith;
                  short = s;
                  paused = omega arith;
                })
          | inr (e, t) ↦
              elim (Bool-cases (leb (attempts_of o) attempt || not (may_retry o.retryable e))) [
                | inl last ↦
                    rw (go, t, last, attempt_loop)
                      (record {
                        explained = (t, ground arith);
                        bounded = omega arith;
                        short = s;
                        paused = omega arith;
                      })
                | inr again ↦
                    elim (Bool-cases
                      (w.aborted_in_pause attempt (w.jittered attempt (raw_pause o attempt)))) [
                        | inl stop ↦
                            rw (go, t, again, stop, attempt_loop)
                              (record {
                                explained = tt;
                                bounded = omega arith;
                                short = longer s;
                                paused =
                                    omega (arith, length-append pauses (raw_pause o attempt ∷ []));
                              })
                        | inr slept ↦
                            rw (go, t, again, slept, attempt_loop)
                              (attempt_loop_facts left (attempt + 1) (errors ++ (e ∷ []))
                                (pauses ++ (raw_pause o attempt ∷ [])) (omega arith) (omega arith)
                                (omega (arith, length-append errors (e ∷ [])))
                                (Failed-append 1 errors attempt e (omega arith) f t) (longer s)
                                (omega (arith, length-append pauses (raw_pause o attempt ∷ [])))
                                (not_last e again))
                      ]
              ]
        ]
      ]
    where
      longer :
          All (λ p. p ≤ or_default o.max_delay_ms 4000) pauses
          → All (λ p. p ≤ or_default o.max_delay_ms 4000) (pauses ++ (raw_pause o attempt ∷ []))
      longer s =
          All-append (λ p. p ≤ or_default o.max_delay_ms 4000) pauses (raw_pause o attempt ∷ []) s
            (short_pause attempt, tt)

      not_last :
          (e : E)
          → (leb (attempts_of o) attempt || not (may_retry o.retryable e)) ≡ false
          → left ≡ 0
          → ⊥
      not_last e again none_left = absurd (ground arith)

  -- The task is started at most as often as there are attempts. A value is the one of the last
  -- start, and the errors that come with it are those of all the starts before, in order. An error
  -- that is thrown is the one of the last start, which was the last attempt or found it not
  -- retryable. The loop never falls through, and no pause is above the limit before jitter.
  pub attempt_with_retry_facts : RunFacts (attempt_with_retry o w)
  unfolding attempt_with_retry
  attempt_with_retry_facts =
      attempt_loop_facts (attempts_of o) 1 [] [] (omega arith) (omega arith) (omega arith) tt tt
        (omega arith) (λ e. absurd (omega arith))
