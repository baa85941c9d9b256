-- ===== src/Cycle/Serving.antt =====
-- worker/src/pipeline/cycle.ts: the checks of the service, within the budget of a cycle.
use proxy_pulse_crunchyroll.Prelude.{
  ℕ, ◌+◌, ◌-◌, Bool, true, false, not, ◌&&◌, List, [], ◌∷◌, ◌++◌, map, none, some, ◌==◌,
  if◌then◌else◌, length, take, keep,
}
use proxy_pulse_crunchyroll.Text.{Text, codes}
use proxy_pulse_crunchyroll.Numbers.{Number}
use proxy_pulse_crunchyroll.Types.{ValidationStatus, ServiceStatus, is_service_passed}
use proxy_pulse_crunchyroll.Crunchyroll.Rules.{Verdict, passed, failed, blocked, skipped}
use proxy_pulse_crunchyroll.Crunchyroll.Scorer.{service_score}
use proxy_pulse_crunchyroll.Queue.{ProxyJob}
use proxy_pulse_crunchyroll.Db.{ProxyRow}
use proxy_pulse_crunchyroll.Db.Sweeps.{Table, ids, among}
use proxy_pulse_crunchyroll.Db.Writes.{persist_service_outcomes}
use proxy_pulse_crunchyroll.Db.Queries.{get_by_ids, select_service_candidates, order_by, by_score}
use proxy_pulse_crunchyroll.Manager.Records.{ServiceStageResult}
use proxy_pulse_crunchyroll.Manager.Service.{plan_service}
use proxy_pulse_crunchyroll.Cycle.{
  ServiceReport, read_rows, select_services, send_checks, consume_checks, persist_checks, Deps,
  CycleStep, pure, modify, call, ◌>>=◌, ◌>>◌,
}
use proxy_pulse_crunchyroll.Cycle.Stages.{update_report, rewrite, query, ended, job_row, job_of}

module _ (N : Number) where
  -- `results.set(id, …)`
  set_result : ServiceStageResult N → List (ServiceStageResult N) → List (ServiceStageResult N)
  set_result o [] = o ∷ []
  set_result o (p ∷ ps) =
      let rest = set_result o ps in if p.proxy_id == o.proxy_id then o ∷ ps else p ∷ rest

  abbrev pub is_validation_passed : ValidationStatus → Bool
  is_validation_passed ValidationStatus.passed = true
  is_validation_passed ValidationStatus.failed = false
  is_validation_passed ValidationStatus.unchecked = false

  abbrev pub is_skipped : Verdict → Bool
  is_skipped skipped = true
  is_skipped passed = false
  is_skipped failed = false
  is_skipped blocked = false

  abbrev is_service_failed : ServiceStatus → Bool
  is_service_failed ServiceStatus.failed = true
  is_service_failed ServiceStatus.untested = false
  is_service_failed ServiceStatus.passed = false
  is_service_failed ServiceStatus.blocked = false
  is_service_failed ServiceStatus.skipped = false

  module _ (deps : Deps N) (cycle : Text) where
    -- The rows that passed in this cycle and are good enough for the service.
    abbrev pub is_fresh_candidate : ProxyRow N → Bool
    is_fresh_candidate row =
        (is_validation_passed row.validation_status
          && N.le (deps.config).service_min_score row.score)
        && not (is_service_passed row.service_status)

    abbrev pub service_budget : ℕ
    service_budget =
        if (deps.config).service_enabled then (deps.config).service_max_checks_per_cycle else 0

    abbrev pub fresh_candidates : Table N → Table N
    fresh_candidates rows =
        take service_budget (order_by N (by_score N) (keep is_fresh_candidate rows))

    -- `candidates`: the fresh rows, and then those of the pool that are not among them.
    unfoldable pub service_candidates : Table N → Table N → Table N
    service_candidates fresh stale =
        take service_budget (fresh ++ keep (λ row. not (among N (ids N fresh) row)) stale)

    result_of : ProxyJob → ProxyRow N → ServiceStageResult N
    result_of job row =
        let result = deps.check job row in
        let score = service_score N (record {
          verdict = result.verdict;
          latency_ms = result.latency_ms;
          consecutive_service_failures = if is_service_failed row.service_status then 1 else 0;
          ideal_latency_ms = none;
          max_latency_ms = none;
        }) in
        record {
          proxy_id = row.id;
          status = result.status;
          latency_ms = result.latency_ms;
          http_status = result.http_status;
          reason = result.reason;
          details = result.details;
          quality = if is_skipped result.verdict then none else some score.quality;
        }

    -- The handler of a service job, on the map of the results.
    check_job : Table N → List (ServiceStageResult N) → ProxyJob → List (ServiceStageResult N)
    unfolding set_result result_of
    check_job rows results job = elim (job_row N (codes "SERVICE_CHECK") rows job) [
      | none ↦ results
      | some row ↦ set_result (result_of job row) results
    ]

    pub results_of :
        Table N → List ProxyJob → List (ServiceStageResult N) → List (ServiceStageResult N)
    unfolding check_job
    results_of rows [] results = results
    results_of rows (job ∷ jobs) results = results_of rows jobs (check_job rows results job)

    -- The loop that counts the results.
    unfoldable pub count_result : ServiceReport → ServiceStageResult N → ServiceReport
    count_result r result =
        let r = record r { checked = r.checked + 1 } in
        elim result.status [
          | ServiceStatus.passed ↦ record r { passed = r.passed + 1 }
          | ServiceStatus.blocked ↦ record r { blocked = r.blocked + 1 }
          | ServiceStatus.failed ↦ record r { failed = r.failed + 1 }
          | _ ↦ record r { skipped = r.skipped + 1 }
        ]

    unfoldable pub count_results : List (ServiceStageResult N) → ServiceReport → ServiceReport
    unfolding count_result
    count_results [] r = r
    count_results (result ∷ results) r = count_results results (count_result r result)

    abbrev pub update_service : (ServiceReport → ServiceReport) → CycleStep N (Unit {0})
    update_service f = modify (update_report λ r. record r { service = f r.service })

    -- What is done with the candidates, when there are any.
    unfoldable pub check_rows : Table N → CycleStep N (Unit {0})
    unfolding call results_of job_of
    check_rows rows = do
      call deps send_checks ended
      processed ←
          call deps consume_checks
            (pure (deps.drain (map (job_of N deps cycle send_checks (codes "SERVICE_CHECK")) rows)))
      let results = results_of rows processed []
      call deps persist_checks (
          rewrite (
            persist_service_outcomes N
              (plan_service N (deps.config).worker rows results cycle (deps.now persist_checks))))
      update_service (count_results results)

    -- `beginCycle` changes only the checker, which is behind `check`.
    unfoldable pub run_service : Table N → CycleStep N (Unit {0})
    unfolding call check_rows
    run_service rows = do
      passed_rows ← call deps read_rows (query (get_by_ids N (ids N rows)))
      let fresh = fresh_candidates passed_rows
      stale ← call deps select_services (
          query (
            select_service_candidates N (service_budget - length fresh)
              (deps.config).service_min_score (deps.config).service_recheck_after_minutes
              (deps.now select_services)))
      let candidates = service_candidates fresh stale
      update_service (λ r. record r { queued = length candidates })
      if 0 == length candidates then ended else check_rows candidates

    unfoldable pub service_stage : Table N → CycleStep N (Unit {0})
    unfolding run_service
    service_stage rows = if 0 == service_budget then ended else run_service rows
