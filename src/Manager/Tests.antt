-- ===== src/Manager/Tests.antt =====
-- Runs of the pool manager, and its theorems at concrete inputs.
use proxy_pulse_crunchyroll.Prelude.{
  ℕ, ◌+◌, ◌≤◌, ◌≡◌, ◌↔◌, Bool, true, false, [], ◌∷◌, Option, none, some, arith, All,
}
use proxy_pulse_crunchyroll.Text.{codes}
use proxy_pulse_crunchyroll.Numbers.Thousandths.{thousandths}
use proxy_pulse_crunchyroll.Types.{
  http, active, pending, ProxyStatus, ValidationStatus, ServiceStatus, unknown,
}
use proxy_pulse_crunchyroll.Scoring.{default_scoring_config}
use proxy_pulse_crunchyroll.Db.{ProxyRow}
use proxy_pulse_crunchyroll.Db.Sweeps.{Table, count_where, ids, member, enforce_pool_capacity}
use proxy_pulse_crunchyroll.Db.Sweeps.Capacity.{HasKeys, enforce_pool_capacity_members}
use proxy_pulse_crunchyroll.Manager.{PlanOptions, plan_validation, scoring_of, decide}
use proxy_pulse_crunchyroll.Manager.Records.{WorkerConfig, ValidatedOutcome}
use proxy_pulse_crunchyroll.Manager.Transitions.{LeadsTo, decide-status_iff}
use proxy_pulse_crunchyroll.Manager.Tallies.{Counts, plan_validation-Counts}
use proxy_pulse_crunchyroll.Manager.Finalize.{finalize, IsSettled, finalize_settles}
use proxy_pulse_crunchyroll.Manager.Records.{ServiceStageResult}

abbrev row : ℕ → ProxyStatus → ℕ → Option ℕ → ProxyRow thousandths
row id status score last_passed_at = record {
  id = id;
  dedupe_key = codes "k";
  protocol = http;
  status = status;
  validation_status = ValidationStatus.passed;
  service_status = ServiceStatus.untested;
  score = score;
  latency_ms = none;
  last_error_code = none;
  anonymity = unknown;
  last_cycle_id = some (codes "c1");
  last_passed_at = last_passed_at;
  consecutive_failures = 1;
  check_count = 4;
  service_latency_ms = none;
  service_checked_at = none;
  service_fail_reason = none;
  last_checked_at = none;
  pass_count = 2;
  notes = none;
}

abbrev config : WorkerConfig thousandths
config = record {
  scoring = default_scoring_config thousandths;
  pool = record {
    ttl_minutes = 90;
    max_consecutive_failures = 3;
    min_score = 25000;
    ideal_latency_ms = 200000;
    max_latency_ms = 3000000;
    max_active = 2;
  };
  service = codes "crunchyroll";
}

abbrev pool : Table thousandths
pool =
    row 1 active 50000 (some 9000000)
    ∷ row 2 active 40000 (some 9000000)
    ∷ row 3 pending 0 none
    ∷ row 4 active 60000 (some 9000000)
    ∷ row 5 active 70000 (some 1000)
    ∷ []

pool_keys : HasKeys thousandths pool
pool_keys i = ground arith

abbrev outcome : ℕ → Bool → ValidatedOutcome thousandths
outcome id reachable = record {
  proxy_id = id;
  outcome = record {
    reachable = reachable;
    latency_ms = some 300000;
    http_status = none;
    error_code = none;
    error_message = none;
    attempts = 1;
    duration_ms = 400000;
    transport = none;
  };
}

abbrev options : PlanOptions thousandths
options = record { cycle_id = codes "c1"; now_ms = 9000000; trust_by_dedupe_key = [] }

decide-status_iff_example :
    ((decide thousandths (scoring_of thousandths config) (row 1 active 50000 none) false 0).status
      ≡ active)
    ↔ LeadsTo thousandths (scoring_of thousandths config) (row 1 active 50000 none) false 0 active
decide-status_iff_example =
    decide-status_iff thousandths (scoring_of thousandths config) (row 1 active 50000 none) false 0
      active

plan_validation-Counts_example : Counts thousandths (
    plan_validation thousandths config pool
      (outcome 1 true ∷ outcome 3 false ∷ outcome 9 true ∷ [])
      options)
plan_validation-Counts_example =
    plan_validation-Counts thousandths config pool
      (outcome 1 true ∷ outcome 3 false ∷ outcome 9 true ∷ []) options

enforce_pool_capacity_members_example :
    let r = enforce_pool_capacity thousandths 2 pool in
    (count_where thousandths (member thousandths) r.0 ≡ 2)
    × (r.1 + count_where thousandths (member thousandths) r.0 ≡ 4)
    × (ids thousandths r.0 ≡ ids thousandths pool)
enforce_pool_capacity_members_example = enforce_pool_capacity_members thousandths 2 pool pool_keys

finalize_settles_example :
    let r = finalize thousandths config (codes "c1") 9000000 pool in
    All (IsSettled thousandths config (codes "c1") 9000000) r.0
    × ((r.1).pool_size ≡ count_where thousandths (member thousandths) r.0)
    × ((r.1).pool_size ≤ 2)
    × (ids thousandths r.0 ≡ ids thousandths pool)
finalize_settles_example = finalize_settles thousandths config (codes "c1") 9000000 pool pool_keys

abbrev service_result : ℕ → ServiceStatus → ServiceStageResult thousandths
service_result id status = record {
  proxy_id = id;
  status = status;
  latency_ms = some 400000;
  http_status = some 200;
  reason = none;
  details = none;
  quality = some 900;
}
