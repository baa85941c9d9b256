-- ===== src/Cycle/Keeping.antt =====
-- worker/src/pipeline/cycle.ts: what the stages keep of the report.
use proxy_pulse_crunchyroll.Prelude.{ℕ, refl, List, [], length, take}
use proxy_pulse_crunchyroll.Text.{Text}
use proxy_pulse_crunchyroll.Numbers.{Number}
use proxy_pulse_crunchyroll.Queue.{ProxyJob}
use proxy_pulse_crunchyroll.Db.Sweeps.{Table}
use proxy_pulse_crunchyroll.Db.Queries.{Candidate, UpsertResult}
use proxy_pulse_crunchyroll.Manager.Records.{ServiceStageResult}
use proxy_pulse_crunchyroll.Cycle.{
  CycleReport, discover, upsert, select_queue, claim, send_validations, consume_validations,
  persist_validations, read_rows, select_services, send_checks, consume_checks, persist_checks,
  sweep_pool, compute_stats, store_stats, complete_cycle, set_completed, clear_error, set_next_run,
  read_prune, prune_history, set_prune, Deps,
}
use proxy_pulse_crunchyroll.Cycle.Stages.{
  discovered_report, upserted_report, upsert_step, discover_stage,
}
use proxy_pulse_crunchyroll.Cycle.Validating.{
  plan_of, validated_report, validate_rows, validate_stage,
}
use proxy_pulse_crunchyroll.Cycle.Serving.{
  fresh_candidates, service_candidates, count_results, results_of, check_rows, run_service,
  service_stage,
}
use proxy_pulse_crunchyroll.Manager.Finalize.{FinalizeSummary}
use proxy_pulse_crunchyroll.Cycle.Records.{pool_report}
use proxy_pulse_crunchyroll.Cycle.Running.{
  sweep_step, sweep_stage, stats_stage, complete_stage, maintenance_if_needed, stages,
}
use proxy_pulse_crunchyroll.Cycle.Outcomes.{
  Keeps, bind-Keeps, call-Keeps, update-Keeps, modify-Keeps, if-Keeps, query-Keeps, pure-Keeps,
}

module _ (N : Number) (deps : Deps N) (cycle : Text) where
  -- A property of the report that each change by a stage keeps.
  pub record IsClosed (I : CycleReport → Type 0) : Type 0 where
    pub discovered :
        (r : CycleReport)
        → I r
        → I (record r { discovery = discovered_report N deps cycle deps.discovery r.discovery })
    pub upserted :
        (u : UpsertResult) (r : CycleReport)
        → I r
        → I (record r { discovery = upserted_report N deps cycle u r.discovery })
    pub queued :
        (found : Table N) (r : CycleReport)
        → I r
        → I (record r {
          validation = record r.validation {
            queued = length (take (deps.config).validation_max_per_cycle found);
          };
        })
    pub validated :
        (rows : Table N) (jobs : List ProxyJob) (r : CycleReport)
        → I r
        → I (record r {
          validation =
              validated_report N deps cycle (plan_of N deps cycle rows jobs).tally r.validation;
        })
    pub candidates :
        (fresh stale : Table N) (r : CycleReport)
        → I r
        → I (record r {
          service = record r.service {
            queued = length (service_candidates N deps cycle fresh stale);
          };
        })
    pub served :
        (results : List (ServiceStageResult N)) (r : CycleReport)
        → I r
        → I (record r { service = count_results N deps cycle results r.service })
    pub pooled :
        (f : FinalizeSummary) (r : CycleReport) → I r → I (record r { pool = pool_report f })
    pub finished : (at : ℕ) (r : CycleReport) → I r → I (record r { finished_at = at })

  module _ {I : CycleReport → Type 0} (closed : IsClosed I) where
    upsert_step-Keeps : (cs : List Candidate) → Keeps I (upsert_step N deps cycle cs)
    unfolding upsert_step
    upsert_step-Keeps cs = record { kept = λ s i. i }

    discover_stage-Keeps : Keeps I (discover_stage N deps cycle)
    unfolding discover_stage
    discover_stage-Keeps = bind-Keeps (call-Keeps deps discover (pure-Keeps _)) λ _.
        bind-Keeps (update-Keeps _ closed.discovered) λ _.
          bind-Keeps (call-Keeps deps upsert (upsert_step-Keeps _))
            λ u. update-Keeps _ (closed.upserted u)

    validate_rows-Keeps : (rows : Table N) → Keeps I (validate_rows N deps cycle rows)
    unfolding validate_rows
    validate_rows-Keeps rows = bind-Keeps (call-Keeps deps claim (modify-Keeps _ λ s. refl)) λ _.
        bind-Keeps (call-Keeps deps send_validations (pure-Keeps _)) λ _.
          bind-Keeps (call-Keeps deps consume_validations (pure-Keeps _)) λ processed.
            bind-Keeps (call-Keeps deps persist_validations (modify-Keeps _ λ s. refl))
              λ _. update-Keeps _ (closed.validated rows processed)

    validate_stage-Keeps : Keeps I (validate_stage N deps cycle)
    unfolding validate_stage
    validate_stage-Keeps = bind-Keeps (call-Keeps deps select_queue (query-Keeps _)) λ found.
        bind-Keeps (update-Keeps _ (closed.queued found))
          λ _. bind-Keeps (if-Keeps _ (pure-Keeps _) (validate_rows-Keeps _)) λ _. pure-Keeps _

    check_rows-Keeps : (rows : Table N) → Keeps I (check_rows N deps cycle rows)
    unfolding check_rows
    check_rows-Keeps rows = bind-Keeps (call-Keeps deps send_checks (pure-Keeps _)) λ _.
        bind-Keeps (call-Keeps deps consume_checks (pure-Keeps _)) λ processed.
          bind-Keeps (call-Keeps deps persist_checks (modify-Keeps _ λ s. refl))
            λ _. update-Keeps _ (closed.served (results_of N deps cycle rows processed []))

    run_service-Keeps : (rows : Table N) → Keeps I (run_service N deps cycle rows)
    unfolding run_service
    run_service-Keeps rows = bind-Keeps (call-Keeps deps read_rows (query-Keeps _)) λ passed_rows.
        bind-Keeps (call-Keeps deps select_services (query-Keeps _)) λ stale.
          bind-Keeps
            (update-Keeps _ (closed.candidates (fresh_candidates N deps cycle passed_rows) stale))
            λ _. if-Keeps _ (pure-Keeps _) (check_rows-Keeps _)

    service_stage-Keeps : (rows : Table N) → Keeps I (service_stage N deps cycle rows)
    unfolding service_stage
    service_stage-Keeps rows = if-Keeps _ (pure-Keeps _) (run_service-Keeps rows)

    sweep_step-Keeps : Keeps I (sweep_step N deps cycle)
    unfolding sweep_step
    sweep_step-Keeps = record { kept = λ s i. i }

    sweep_stage-Keeps : Keeps I (sweep_stage N deps cycle)
    unfolding sweep_stage
    sweep_stage-Keeps =
        bind-Keeps (call-Keeps deps sweep_pool sweep_step-Keeps)
          λ summary. update-Keeps _ (closed.pooled summary)

    stats_stage-Keeps : Keeps I (stats_stage N deps cycle)
    unfolding stats_stage
    stats_stage-Keeps = bind-Keeps (call-Keeps deps compute_stats (query-Keeps _)) λ stats.
        bind-Keeps (call-Keeps deps store_stats (modify-Keeps _ λ s. refl))
          λ _. update-Keeps _ (λ r h. closed.finished (deps.now complete_cycle) r h)

    complete_stage-Keeps : Keeps I (complete_stage N deps cycle)
    unfolding complete_stage
    complete_stage-Keeps =
        bind-Keeps (call-Keeps deps complete_cycle (modify-Keeps _ λ s. refl)) λ _.
          bind-Keeps (call-Keeps deps set_completed (modify-Keeps _ λ s. refl)) λ _.
            bind-Keeps (call-Keeps deps clear_error (modify-Keeps _ λ s. refl))
              λ _. call-Keeps deps set_next_run (modify-Keeps _ λ s. refl)

    maintenance_if_needed-Keeps : Keeps I (maintenance_if_needed N deps cycle)
    unfolding maintenance_if_needed
    maintenance_if_needed-Keeps =
        bind-Keeps (call-Keeps deps read_prune (record { kept = λ s i. i })) λ last.
          if-Keeps _ (pure-Keeps _) (
            bind-Keeps (call-Keeps deps prune_history (modify-Keeps _ λ s. refl))
              λ _. call-Keeps deps set_prune (modify-Keeps _ λ s. refl))

    pub stages-Keeps : Keeps I (stages N deps cycle)
    unfolding stages
    stages-Keeps = bind-Keeps discover_stage-Keeps λ _. bind-Keeps validate_stage-Keeps λ rows.
        bind-Keeps (service_stage-Keeps rows) λ _. bind-Keeps sweep_stage-Keeps λ _.
          bind-Keeps stats_stage-Keeps
            λ _. bind-Keeps complete_stage-Keeps λ _. maintenance_if_needed-Keeps
