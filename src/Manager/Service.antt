-- ===== src/Manager/Service.antt =====
-- worker/src/pool/manager.ts: planService, what the verdict of the service adds to the score.
pub mod Planned
use proxy_pulse_crunchyroll.Prelude.{
  ℕ, Bool, true, false, not, List, [], ◌∷◌, Option, none, some, if◌then◌else◌,
}
use proxy_pulse_crunchyroll.Text.{Text}
use proxy_pulse_crunchyroll.Numbers.{Number}
use proxy_pulse_crunchyroll.Types.{
  active, ValidationStatus, ServiceStatus, stamp_of, is_service_blocked, is_service_passed,
}
use proxy_pulse_crunchyroll.Scoring.{score_proxy_detailed, minutes_since, combine_scores}
use proxy_pulse_crunchyroll.Scoring.Records.{ScoreInput}
use proxy_pulse_crunchyroll.Db.{ProxyRow}
use proxy_pulse_crunchyroll.Manager.Records.{ServiceOutcome, ServiceStageResult, WorkerConfig}
use proxy_pulse_crunchyroll.Manager.{by_id, scoring_of}

module _ (N : Number) where
  is_validation_failed : ValidationStatus → Bool
  is_validation_failed ValidationStatus.failed = true
  is_validation_failed ValidationStatus.passed = false
  is_validation_failed ValidationStatus.unchecked = false

  service_score_input : ProxyRow N → ServiceStatus → ℕ → ScoreInput N
  unfolding is_validation_failed
  service_score_input row status now = record {
    validation_passed = not (is_validation_failed row.validation_status);
    latency_ms = row.latency_ms;
    check_count = row.check_count;
    pass_count = row.pass_count;
    consecutive_failures = row.consecutive_failures;
    minutes_since_last_pass = minutes_since N (stamp_of row.last_passed_at) now;
    service_status = status;
    service_blocked = is_service_blocked status;
    source_trust = none;
    anonymity = some row.anonymity;
  }

  unfoldable pub service_outcome_of :
      WorkerConfig N → ProxyRow N → ServiceStageResult N → Text → ℕ → ServiceOutcome N
  unfolding service_score_input
  service_outcome_of w row result cycle_id now = record {
    id = row.id;
    cycle_id = cycle_id;
    service = w.service;
    created_at = now;
    passed = is_service_passed result.status;
    status = result.status;
    http_status = result.http_status;
    latency_ms = result.latency_ms;
    reason = result.reason;
    details = result.details;
    score =
        combine_scores N
          (score_proxy_detailed N (service_score_input row result.status now)
            (scoring_of N w)).score
          result.quality (some (N.ratio 55 100));
    status_next = if is_service_passed result.status then active else row.status;
  }

  -- A result without a row is skipped.
  abbrev pub add_planned :
      WorkerConfig N
      → ServiceStageResult N
      → Text
      → ℕ
      → List (ServiceOutcome N)
      → Option (ProxyRow N)
      → List (ServiceOutcome N)
  add_planned w r cycle_id now planned none = planned
  add_planned w r cycle_id now planned (some row) =
      service_outcome_of w row r cycle_id now ∷ planned

  unfoldable pub plan_service :
      WorkerConfig N
      → List (ProxyRow N)
      → List (ServiceStageResult N)
      → Text
      → ℕ
      → List (ServiceOutcome N)
  plan_service w rows [] cycle_id now = []
  plan_service w rows (r ∷ rs) cycle_id now =
      add_planned w r cycle_id now (plan_service w rows rs cycle_id now) (by_id N r.proxy_id rows)
