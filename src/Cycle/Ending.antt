-- ===== src/Cycle/Ending.antt =====
-- worker/src/pipeline/cycle.ts: how a cycle ends, whether it has completed or failed.
use proxy_pulse_crunchyroll.Prelude.{
  ◌≡◌, refl, sym, ap, ◌∙◌, subst, ◌⊎◌, inl, inr, true, false, [], ◌∷◌, none, some, if-cases,
  is_some, take, All,
}
use proxy_pulse_crunchyroll.Text.{Text}
use proxy_pulse_crunchyroll.Numbers.{Number}
use proxy_pulse_crunchyroll.Db.Sweeps.{Table, orphaned, release_row, release_orphaned_pending}
use proxy_pulse_crunchyroll.Db.Sweeps.Counting.{All-update_where}
use proxy_pulse_crunchyroll.Cycle.{
  failed, Call, start_cycle, set_current, fail_cycle, record_error, release_pending, remove_current,
  Deps, CycleState, CycleStep, StepResult, ok, thrown, next, modify, perform, call, ◌>>=◌,
}
use proxy_pulse_crunchyroll.Cycle.Records.{empty_report, start_row}
use proxy_pulse_crunchyroll.Cycle.Running.{
  silently, stages, on_failure, caught, at_end, begin, run_cycle,
}
use proxy_pulse_crunchyroll.Cycle.Outcomes.{Holds, both-Holds}
use proxy_pulse_crunchyroll.Cycle.Keeping.{stages-Keeps}
use proxy_pulse_crunchyroll.Cycle.Completing.{
  IsReleased, HasStatus, IsCompleted, update_cycle-HasStatus, stages-Leads, IsClean,
  IsClean-IsClosed,
}

module _ (N : Number) (deps : Deps N) (cycle : Text) where
  -- What the tables say of a cycle that has failed.
  pub record IsFailed (s : CycleState N) : Type 0 where
    pub released : IsReleased N deps cycle s
    pub row : HasStatus N deps cycle failed s
    pub reported : is_some (s.report).error ≡ true
    pub error : (s.meta).last_cycle_error ≡ (s.report).error

  abbrev pub HasOutcome : CycleState N → Type 0
  HasOutcome s =
      (IsClean N deps cycle s.report × IsCompleted N deps cycle s)
      ⊎ (((s.report).status ≡ failed) × IsFailed s)

  -- A call that does not reject makes its change.
  silently-change :
      (P : CycleState N → Type 0) (c : Call) (f : CycleState N → CycleState N) (s : CycleState N)
      → deps.fault c ≡ none
      → P (f s)
      → P (silently (call deps c (modify f)) s)
  unfolding call modify
  silently-change P c f s e h = subst (λ o. P (perform o (modify f) s).1) (sym e) h

  released_after :
      (t : Table N) → All (λ r. orphaned N cycle r ≡ false) (release_orphaned_pending N cycle t).0
  unfolding release_orphaned_pending
  released_after t =
      All-update_where N (orphaned N cycle) (release_row N) (λ _. Unit {0})
        (λ r. orphaned N cycle r ≡ false) t
        (λ r u.
          if-cases (λ x. orphaned N cycle x ≡ false) (orphaned N cycle r) _ _ (λ _. refl)
            (λ kept. kept))
        (All-Unit t)
    where
      All-Unit : (t : Table N) → All (λ _. Unit {0}) t
      All-Unit [] = tt
      All-Unit (r ∷ t) = (tt, All-Unit t)

  abbrev HasFailed : CycleState N → Type 0
  HasFailed s = ((s.report).status ≡ failed) × IsFailed s

  on_failure-HasFailed :
      (message : Text) (s : CycleState N)
      → deps.fault fail_cycle ≡ none
      → deps.fault record_error ≡ none
      → deps.fault release_pending ≡ none
      → HasFailed (on_failure N deps cycle message s)
  unfolding on_failure
  on_failure-HasFailed message s f r p = silently-change HasFailed release_pending _ _ p (
      silently-change
        (λ t. HasFailed (record t { table = (release_orphaned_pending N cycle t.table).0 }))
        record_error _ _ r
        (silently-change
          (λ t. HasFailed (record t {
            table = (release_orphaned_pending N cycle t.table).0;
            meta = record t.meta { last_cycle_error = some (take 300 message) };
          }))
          fail_cycle _ _ f
          (
            refl,
            record {
              released = released_after s.table;
              row = update_cycle-HasStatus N deps cycle failed _ s.cycles (λ row. refl);
              reported = refl;
              error = refl;
            },
          )))

  module _ (f : deps.fault fail_cycle ≡ none) (r : deps.fault record_error ≡ none)
      (p : deps.fault release_pending ≡ none) where
    caught-HasOutcome :
        (o : StepResult (Unit {0}) × CycleState N)
        → Holds
            (λ _ t. IsClean N deps cycle t.report × IsCompleted N deps cycle t)
            (λ t. IsClean N deps cycle t.report × Unit {0})
            o
        → HasOutcome (caught N deps cycle o)
    caught-HasOutcome (ok u, s) h = inl h
    caught-HasOutcome (thrown m, s) h = inr (on_failure-HasFailed m s f r p)

    stages-HasOutcome :
        (s : CycleState N)
        → IsClean N deps cycle s.report
        → HasOutcome (caught N deps cycle (stages N deps cycle s))
    stages-HasOutcome s c = caught-HasOutcome _ (
        both-Holds (λ t. IsClean N deps cycle t.report) (IsCompleted N deps cycle)
          (λ t. IsClean N deps cycle t.report) (λ _. Unit {0}) _
          ((stages-Keeps N deps cycle (IsClean-IsClosed N deps cycle)).kept s c)
          ((stages-Leads N deps cycle).led s tt))

  -- What holds at the end of a cycle.
  pub record HasEnded (s : CycleState N) : Type 0 where
    pub current : (s.meta).current_cycle_id ≡ none
    pub outcome : HasOutcome s

  at_end-HasEnded :
      (s : CycleState N)
      → deps.fault remove_current ≡ none
      → HasOutcome s
      → HasEnded (at_end N deps cycle s)
  unfolding at_end
  at_end-HasEnded s e h = silently-change HasEnded remove_current _ s e (record {
    current = refl;
    outcome = elim h [
      | inl (c, k) ↦ inl (
        c,
        record {
          released = k.released;
          row = k.row;
          last = k.last;
          error = k.error;
          next_run = k.next_run;
        },
      )
      | inr (t, k) ↦
          inr (
            t,
            record { released = k.released; row = k.row; reported = k.reported; error = k.error },
          )
    ];
  })

  call-none {ℓ} :
      {A : Type ℓ} (c : Call) (step : CycleStep N A) (s : CycleState N)
      → deps.fault c ≡ none
      → call deps c step s ≡ step s
  unfolding call
  call-none c step s e = ap (λ o. perform o step s) e

  -- The state in which the stages start.
  abbrev begun : CycleState N → CycleState N
  begun s = record s {
    report = empty_report (deps.now start_cycle);
    cycles = start_row cycle (deps.now start_cycle) s.cycles;
    meta = record s.meta { current_cycle_id = some cycle };
  }

  begin-begun :
      (s : CycleState N)
      → deps.fault start_cycle ≡ none
      → deps.fault set_current ≡ none
      → begin N deps cycle s ≡ (ok tt, begun s)
  unfolding begin modify ◌>>=◌
  begin-begun s b c = ap (next _) (call-none start_cycle _ _ b) ∙ call-none set_current _ _ c

  -- When the writes that begin a cycle, those after a failure and the one at its end go through, the
  -- cycle ends, whatever other calls reject: no proxy is left with a claim of it, it is no longer the
  -- current cycle, and either its report and its rows say that it has completed, with the next run
  -- due an interval after its start and no last error, or they say that it has failed, with an error
  -- that the report and `meta` share.
  pub run_cycle-HasEnded :
      (s : CycleState N)
      → deps.fault start_cycle ≡ none
      → deps.fault set_current ≡ none
      → deps.fault fail_cycle ≡ none
      → deps.fault record_error ≡ none
      → deps.fault release_pending ≡ none
      → deps.fault remove_current ≡ none
      → let (result, t) = run_cycle N deps cycle s in (result ≡ ok tt) × HasEnded t
  unfolding run_cycle ◌>>=◌
  run_cycle-HasEnded s b c f r p e =
      subst (λ x. (x.0 ≡ ok tt) × HasEnded x.1)
        (sym (
          ap
            (next
              (λ _ t. (ok tt, at_end N deps cycle (caught N deps cycle (stages N deps cycle t)))))
            (begin-begun s b c)))
        (refl, at_end-HasEnded _ e (stages-HasOutcome f r p (begun s) (refl, refl)))
