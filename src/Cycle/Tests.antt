-- ===== src/Cycle/Tests.antt =====
-- Runs of the refresh cycle and of its queries, and the theorems on them at concrete inputs.
use proxy_pulse_crunchyroll.Prelude.{
  List, ◌+◌, length, ℕ, ◌≡◌, refl, true, false, [], ◌∷◌, Option, none, some, take,
}
use proxy_pulse_crunchyroll.Text.{Text, codes}
use proxy_pulse_crunchyroll.Numbers.Thousandths.{thousandths}
use proxy_pulse_crunchyroll.Types.{
  http, ProxyStatus, new, active, quarantined, pending, ValidationStatus, ServiceStatus,
  AnonymityLevel,
}
use proxy_pulse_crunchyroll.Scoring.{default_scoring_config}
use proxy_pulse_crunchyroll.Crunchyroll.Rules.{Verdict}
use proxy_pulse_crunchyroll.Queue.{ProxyJob, string, number}
use proxy_pulse_crunchyroll.Db.{ProxyRow}
use proxy_pulse_crunchyroll.Db.Sweeps.{Table, ids}
use proxy_pulse_crunchyroll.Db.Queries.{
  Candidate, QueueOptions, select_validation_queue, get_by_ids, upsert_candidates,
}
use proxy_pulse_crunchyroll.Db.Queries.Selected.{IsQueue, select_validation_queue-IsQueue}
use proxy_pulse_crunchyroll.Db.Queries.Upserted.{upsert_candidates-counts}
use proxy_pulse_crunchyroll.Manager.Records.{WorkerConfig}
use proxy_pulse_crunchyroll.Cycle.{CycleState, Call, persist_validations, ok, Deps, Fault}
use proxy_pulse_crunchyroll.Cycle.Records.{empty_report}
use proxy_pulse_crunchyroll.Cycle.Running.{run_cycle}
use proxy_pulse_crunchyroll.Cycle.External.{handle_external_job}
use proxy_pulse_crunchyroll.Cycle.External.Stale.{HasStatusOf, handle_external_job-stale}
use proxy_pulse_crunchyroll.Cycle.Report.{IsConsistent, run_cycle-IsConsistent}
use proxy_pulse_crunchyroll.Cycle.Ending.{HasEnded, run_cycle-HasEnded}

abbrev stored : ℕ → ProxyStatus → ProxyRow thousandths
stored id status = record {
  id = id;
  dedupe_key = codes "k";
  protocol = http;
  status = status;
  validation_status = ValidationStatus.unchecked;
  service_status = ServiceStatus.untested;
  score = 0;
  latency_ms = none;
  service_latency_ms = none;
  service_checked_at = none;
  service_fail_reason = none;
  last_error_code = none;
  anonymity = AnonymityLevel.unknown;
  last_cycle_id = none;
  last_checked_at = none;
  last_passed_at = none;
  consecutive_failures = 0;
  check_count = 0;
  pass_count = 0;
  notes = none;
}

abbrev rows : Table thousandths
rows = stored 1 active ∷ stored 2 new ∷ stored 3 pending ∷ stored 4 quarantined ∷ stored 5 new ∷ []

abbrev limits : QueueOptions
limits = record {
  new_limit = 1;
  quarantine_limit = 10;
  recheck_limit = 10;
  recheck_after_minutes = 30;
  now = 9000000;
}

queue_ids : ids thousandths (select_validation_queue thousandths limits rows) ≡ 2 ∷ 4 ∷ 1 ∷ []
unfolding select_validation_queue
queue_ids = refl

select_validation_queue-IsQueue_example :
    IsQueue thousandths limits
      (λ r. r.check_count ≡ 0)
      (select_validation_queue thousandths limits rows)
select_validation_queue-IsQueue_example =
    select_validation_queue-IsQueue thousandths limits (λ r. r.check_count ≡ 0) rows
      (refl, (refl, (refl, (refl, (refl, tt)))))

abbrev candidate : Text → Text → Candidate
candidate key host = record { key = key; host = host; protocol = http; anonymity = none }

abbrev found : List Candidate
found =
    candidate (codes "k") (codes "8.8.8.8")
    ∷ candidate (codes "n") (codes "8.8.4.4")
    ∷ candidate (codes "n") (codes "8.8.4.4")
    ∷ []

upserted_rows :
    (upsert_candidates thousandths (codes "c1") found (stored 1 active ∷ [])).1
    ≡ record { total = 2; inserted = 1; touched = 1 }
unfolding upsert_candidates
upserted_rows = refl

upsert_candidates-counts_example :
    let (after, result) = upsert_candidates thousandths (codes "c1") found rows in
    (length after ≡ length rows + result.inserted)
    × (result.inserted + result.touched ≡ result.total)
upsert_candidates-counts_example = upsert_candidates-counts thousandths (codes "c1") found rows

abbrev worker : WorkerConfig thousandths
worker = record {
  scoring = default_scoring_config thousandths;
  pool = record {
    ttl_minutes = 90;
    max_consecutive_failures = 3;
    min_score = 25000;
    ideal_latency_ms = 200000;
    max_latency_ms = 3000000;
    max_active = 2;
  };
  service = codes "crunchyroll";
}

-- The writes of the validation reject, half done.
abbrev faults : Call → Option (Fault thousandths)
faults persist_validations =
    some (record { message = codes "database is locked"; left = λ t. take 3 t })
faults _ = none

abbrev deps : Deps thousandths
deps = record {
  config = record {
    worker = worker;
    allow_private_endpoints = false;
    max_new_per_cycle = 10;
    max_quarantine_recheck_per_cycle = 10;
    max_recheck_per_cycle = 10;
    recheck_after_minutes = 30;
    validation_max_per_cycle = 4;
    service_enabled = true;
    service_max_checks_per_cycle = 2;
    service_min_score = 1000;
    service_recheck_after_minutes = 60;
    interval_minutes = 15;
    cycle_days = 7;
  };
  fault = faults;
  now = λ c. 9000000;
  discovery = record {
    candidates =
        candidate (codes "a") (codes "8.8.8.8") ∷ candidate (codes "b") (codes "10.0.0.1") ∷ [];
    discovered = 2;
    rejected = 0;
    duplicates = 0;
    sources_ok = 1;
    sources_failed = 0;
    trust = [];
  };
  validate = λ job row. record {
    reachable = true;
    latency_ms = some 250000;
    http_status = some 204;
    error_code = none;
    error_message = none;
    attempts = 1;
    duration_ms = 300000;
    transport = none;
  };
  check = λ job row. record {
    verdict = Verdict.passed;
    status = ServiceStatus.passed;
    latency_ms = some 400000;
    http_status = some 200;
    reason = none;
    details = none;
  };
  drain = λ jobs. jobs;
  job_id = λ c id. codes "job";
  iso = λ ms. codes "time";
  stats = λ ms t. codes "{}";
  is_unseen = λ ms r. false;
}

abbrev state : CycleState thousandths
state = record {
  table = rows;
  cycles = [];
  meta = record {
    next_run_at = none;
    current_cycle_id = none;
    last_completed_cycle_id = none;
    last_cycle_error = none;
    stats_snapshot = none;
    last_prune_at = none;
  };
  report = empty_report 0;
}

run_cycle-IsConsistent_example :
    IsConsistent thousandths deps
      (codes "c1")
      ((run_cycle thousandths deps (codes "c1") state).1).report
run_cycle-IsConsistent_example = run_cycle-IsConsistent thousandths deps (codes "c1") state

run_cycle-HasEnded_example :
    let (result, t) = run_cycle thousandths deps (codes "c1") state in
    (result ≡ ok tt) × HasEnded thousandths deps (codes "c1") t
run_cycle-HasEnded_example =
    run_cycle-HasEnded thousandths deps (codes "c1") state refl refl refl refl refl refl

abbrev service_job : ProxyJob
service_job = record {
  job_id = string (codes "j");
  type = string (codes "SERVICE_CHECK");
  cycle_id = string (codes "c1");
  issued_at = codes "time";
  proxy_id = number 1;
  reason = none;
  attempt = none;
}

-- The service refuses the proxy, and no call rejects.
abbrev refusing : Deps thousandths
refusing = record deps {
  fault = λ c. none;
  check = λ job row. record {
    verdict = Verdict.failed;
    status = ServiceStatus.failed;
    latency_ms = none;
    http_status = some 503;
    reason = none;
    details = none;
  };
}

found_row : get_by_ids thousandths (1 ∷ []) rows ≡ stored 1 active ∷ []
unfolding get_by_ids
found_row = refl

handle_external_job-stale_example :
    let (result, t) = handle_external_job thousandths refusing (codes "c1") service_job state in
    (result ≡ ok tt) × HasStatusOf thousandths refusing (codes "c1") (stored 1 active) t
handle_external_job-stale_example =
    handle_external_job-stale thousandths refusing (codes "c1") service_job 1 (stored 1 active) []
      state refl refl found_row refl refl refl refl refl
