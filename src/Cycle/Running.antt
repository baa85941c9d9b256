-- ===== src/Cycle/Running.antt =====
-- worker/src/pipeline/cycle.ts: the last stages of runCycle, maintenanceIfNeeded, and runCycle itself
-- with its `try`, `catch` and `finally`.
use proxy_pulse_crunchyroll.Prelude.{
  ◌+◌, ◌*◌, Bool, not, ◌&&◌, List, none, some, if◌then◌else◌, take, keep,
}
use proxy_pulse_crunchyroll.Text.{Text}
use proxy_pulse_crunchyroll.Numbers.{Number}
use proxy_pulse_crunchyroll.Db.{ProxyRow}
use proxy_pulse_crunchyroll.Db.Sweeps.{release_orphaned_pending}
use proxy_pulse_crunchyroll.Db.Queries.{is_dead}
use proxy_pulse_crunchyroll.Manager.{never_passed}
use proxy_pulse_crunchyroll.Manager.Finalize.{FinalizeSummary, finalize}
use proxy_pulse_crunchyroll.Cycle.{
  failed, CycleRow, Meta, start_cycle, set_current, sweep_pool, compute_stats, store_stats,
  complete_cycle, set_completed, clear_error, set_next_run, read_prune, prune_history, set_prune,
  fail_cycle, record_error, release_pending, remove_current, Deps, CycleState, CycleStep,
  StepResult, ok, thrown, modify, call, ◌>>=◌, ◌>>◌,
}
use proxy_pulse_crunchyroll.Cycle.Stages.{update_report, rewrite, query, ended, discover_stage}
use proxy_pulse_crunchyroll.Cycle.Validating.{validate_stage}
use proxy_pulse_crunchyroll.Cycle.Serving.{service_stage}
use proxy_pulse_crunchyroll.Cycle.Records.{
  empty_report, start_row, update_cycle, complete_row, fail_row, counts_of, pool_report,
  is_prune_due, is_old_cycle,
}

module _ {N : Number} where
  abbrev pub update_meta : (Meta → Meta) → CycleStep N (Unit {0})
  update_meta f = modify (λ s. record s { meta = f s.meta })

  abbrev pub update_cycles : (List CycleRow → List CycleRow) → CycleStep N (Unit {0})
  update_cycles f = modify (λ s. record s { cycles = f s.cycles })

  -- `await ….catch(() => undefined)`
  abbrev pub silently : CycleStep N (Unit {0}) → CycleState N → CycleState N
  silently step s = (step s).1

module _ (N : Number) (deps : Deps N) (cycle : Text) where
  unfoldable pub sweep_step : CycleStep N FinalizeSummary
  sweep_step s =
      let (table, summary) = finalize N (deps.config).worker cycle (deps.now sweep_pool) s.table in
      (ok summary, record s { table = table })

  unfoldable pub sweep_stage : CycleStep N (Unit {0})
  unfolding call sweep_step
  sweep_stage = do
    summary ← call deps sweep_pool sweep_step
    modify (update_report λ r. record r { pool = pool_report summary })

  -- `pruneHistory` on the rows of the model.
  abbrev is_prunable : ProxyRow N → Bool
  is_prunable row =
      is_dead row.status
      && deps.is_unseen (deps.now prune_history) row
      && never_passed N row.last_passed_at

  abbrev pub prune_step : CycleStep N (Unit {0})
  prune_step = modify (λ s. record s {
    table = keep (λ row. not (is_prunable row)) s.table;
    cycles =
        keep (λ row. not (is_old_cycle (deps.now prune_history) (deps.config).cycle_days row))
          s.cycles;
  })

  unfoldable pub maintenance_if_needed : CycleStep N (Unit {0})
  unfolding call
  maintenance_if_needed = do
    last ← call deps read_prune (λ s. (ok (s.meta).last_prune_at, s))
    if not (is_prune_due (deps.now read_prune) last) then ended else (do
      call deps prune_history prune_step
      call deps set_prune (update_meta λ m. record m { last_prune_at = some (deps.now set_prune) }))

  -- The snapshot of the statistics.
  unfoldable pub stats_stage : CycleStep N (Unit {0})
  unfolding call
  stats_stage = do
    stats ← call deps compute_stats (query (deps.stats (deps.now compute_stats)))
    call deps store_stats (update_meta λ m. record m { stats_snapshot = some stats })
    modify (update_report λ r. record r { finished_at = deps.now complete_cycle })

  -- The row of the cycle and the entries of `meta` that say that it is completed.
  unfoldable pub complete_stage : CycleStep N (Unit {0})
  unfolding call update_cycle
  complete_stage = do
    call deps complete_cycle (
        modify λ s. record s {
          cycles =
              update_cycle cycle (complete_row (s.report).finished_at (counts_of s.report))
                s.cycles;
        })
    call deps set_completed (update_meta λ m. record m { last_completed_cycle_id = some cycle })
    call deps clear_error (update_meta λ m. record m { last_cycle_error = none })
    call deps set_next_run (
        update_meta λ m. record m {
          next_run_at = some (deps.now start_cycle + (deps.config).interval_minutes * 60000);
        })

  -- What stands in the `try`.
  unfoldable pub stages : CycleStep N (Unit {0})
  unfolding discover_stage validate_stage service_stage sweep_stage stats_stage complete_stage
      maintenance_if_needed
  stages = do
    discover_stage N deps cycle
    rows ← validate_stage N deps cycle
    service_stage N deps cycle rows
    sweep_stage
    stats_stage
    complete_stage
    maintenance_if_needed

  -- What stands in the `catch`.
  unfoldable pub on_failure : Text → CycleState N → CycleState N
  unfolding call update_cycle
  on_failure message s =
      let finished = deps.now fail_cycle in
      let s =
        update_report
          (λ r. record r {
            status = failed;
            error = some (take 300 message);
            finished_at = finished;
          })
          s in
      let s =
        silently
          (call deps fail_cycle (update_cycles (update_cycle cycle (fail_row finished message))))
          s in
      let s =
        silently
          (call deps record_error
            (update_meta λ m. record m { last_cycle_error = some (take 300 message) }))
          s in
      silently (call deps release_pending (rewrite λ t. (release_orphaned_pending N cycle t).0)) s

  abbrev pub caught : StepResult (Unit {0}) × CycleState N → CycleState N
  caught (ok u, s) = s
  caught (thrown message, s) = on_failure message s

  -- What stands in the `finally`.
  unfoldable pub at_end : CycleState N → CycleState N
  unfolding call
  at_end s =
      silently (call deps remove_current (update_meta λ m. record m { current_cycle_id = none })) s

  -- What comes before the `try`: it throws out of `runCycle`.
  unfoldable pub begin : CycleStep N (Unit {0})
  unfolding call start_row
  begin = do
    modify (λ s. record s { report = empty_report (deps.now start_cycle) })
    call deps start_cycle (update_cycles (start_row cycle (deps.now start_cycle)))
    call deps set_current (update_meta λ m. record m { current_cycle_id = some cycle })

  -- The report is the one of the state.
  unfoldable pub run_cycle : CycleStep N (Unit {0})
  unfolding begin stages on_failure at_end
  run_cycle = begin >> λ s. (ok tt, at_end (caught (stages s)))
