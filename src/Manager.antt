-- ===== src/Manager.antt =====
-- worker/src/pool/manager.ts: what a validation and a service check make of a proxy. Logging is left
-- out; time stamps are milliseconds.
pub mod Transitions
pub mod Tallies
pub mod Finalize
mod Tests
pub mod Records
pub mod Service
use proxy_pulse_crunchyroll.Prelude.{
  ℕ, ◌+◌, ◌*◌, Bool, true, false, ◌&&◌, List, [], ◌∷◌, ◌++◌, Option, none, some, leb, ◌==◌,
  if◌then◌else◌, or_default,
}
use proxy_pulse_crunchyroll.Text.{Text, text_eq}
use proxy_pulse_crunchyroll.Numbers.{Number}
use proxy_pulse_crunchyroll.Types.{
  ProxyProtocol, ProxyStatus, new, active, quarantined, dead, ValidationStatus, ServiceStatus,
  stamp_of, is_active, is_quarantined, is_service_blocked, is_service_passed,
}
use proxy_pulse_crunchyroll.Scoring.{
  score_proxy_detailed, should_quarantine, minutes_since, combine_scores,
}
use proxy_pulse_crunchyroll.Scoring.Records.{ScoringConfig, ScoreInput}
use proxy_pulse_crunchyroll.Db.{
  ProxyRow, Note, low_score, failures, transient_failure, unrecoverable,
}
use proxy_pulse_crunchyroll.Manager.Records.{
  Decision, ServiceOutcome, ServiceStageResult, Tally, ValidatedOutcome, ValidationOutcome,
  ValidationPlan, ValidationUpdate, WorkerConfig,
}

module _ (N : Number) where
  -- The getter `scoring`: the pool's settings replace those of the scoring.
  abbrev pub scoring_of : WorkerConfig N → ScoringConfig N
  scoring_of w = record w.scoring {
    pool_ttl_minutes = (w.pool).ttl_minutes;
    max_consecutive_failures = (w.pool).max_consecutive_failures;
    min_pool_score = (w.pool).min_score;
    ideal_latency_ms = (w.pool).ideal_latency_ms;
    max_latency_ms = (w.pool).max_latency_ms;
  }

  -- `byId.get(id)`: of two rows with one id the later one is in the map.
  unfoldable pub by_id : ℕ → List (ProxyRow N) → Option (ProxyRow N)
  by_id id [] = none
  by_id id (row ∷ rows) = elim (by_id id rows) [
    | some later ↦ some later
    | none ↦ if row.id == id then some row else none
  ]

  -- `trustByDedupeKey.get(key)`, the map being a list of entries, the latest first.
  trust_of : Text → List (Text × N.Num) → Option N.Num
  trust_of key [] = none
  trust_of key ((k, t) ∷ entries) = if text_eq k key then some t else trust_of key entries

  pub record PlanOptions : Type 0 where
    pub cycle_id : Text
    pub now_ms : ℕ
    pub trust_by_dedupe_key : List (Text × N.Num)

  abbrev pub failures_after : ProxyRow N → Bool → ℕ
  failures_after row passed = if passed then 0 else row.consecutive_failures + 1

  -- What `scoreProxyDetailed` is given.
  score_input : ProxyRow N → ValidationOutcome N → PlanOptions → ScoreInput N
  unfolding trust_of
  score_input row outcome options =
      let passed = outcome.reachable in
      record {
        validation_passed = passed;
        latency_ms = if passed then outcome.latency_ms else none;
        check_count = row.check_count + 1;
        pass_count = row.pass_count + (if passed then 1 else 0);
        consecutive_failures = failures_after row passed;
        minutes_since_last_pass =
            if passed
            then some (N.ratio 0 1)
            else minutes_since N (stamp_of row.last_passed_at) options.now_ms;
        service_status = row.service_status;
        service_blocked = is_service_blocked row.service_status;
        source_trust =
            some (or_default (trust_of row.dedupe_key options.trust_by_dedupe_key) (N.ratio 5 10));
        anonymity = some row.anonymity;
      }

  abbrev pub never_passed : Option ℕ → Bool
  never_passed none = true
  never_passed (some t) = false

  abbrev no_decision : Decision N
  no_decision = record { status = new; notes = none; added = 0; retained = 0; quarantined = 0 }

  -- The chain that sets `status`, `notes` and the tallies.
  unfoldable pub decide : ScoringConfig N → ProxyRow N → Bool → N.Num → Decision N
  unfolding should_quarantine
  decide config row passed score =
      let count = failures_after row passed in
      if passed
      then (if N.le config.min_pool_score score
          then (if is_active row.status
              then record no_decision { status = active; retained = 1 }
              else record no_decision { status = active; added = 1 })
          else record no_decision {
            status = quarantined;
            notes = some (low_score score);
            quarantined = 1;
          })
      else if should_quarantine N count config
      then (if never_passed row.last_passed_at && leb (config.max_consecutive_failures * 3) count
          then record no_decision { status = dead; notes = some unrecoverable }
          else record no_decision {
            status = quarantined;
            notes = some (failures count);
            quarantined = 1;
          })
      else if is_active row.status
      then record no_decision {
        status = active;
        notes = some (transient_failure count);
        retained = 1;
      }
      else if is_quarantined row.status
      then record no_decision {
        status = quarantined;
        notes = some (failures count);
        quarantined = 1;
      }
      else record no_decision { status = new; notes = some (failures count) }

  abbrev pub score_of : ScoringConfig N → ProxyRow N → ValidationOutcome N → PlanOptions → N.Num
  unfolding score_input
  score_of config row outcome options =
      (score_proxy_detailed N (score_input row outcome options) config).score

  -- The update for one row.
  unfoldable pub update_of :
      ScoringConfig N → ProxyRow N → ValidationOutcome N → PlanOptions → ValidationUpdate N
  unfolding score_input
  update_of config row outcome options =
      let passed = outcome.reachable in
      let score = score_of config row outcome options in
      let d = decide config row passed score in
      record {
        id = row.id;
        cycle_id = options.cycle_id;
        created_at = options.now_ms;
        reachable = passed;
        latency_ms = if passed then outcome.latency_ms else none;
        protocol = row.protocol;
        transport = outcome.transport;
        http_status = outcome.http_status;
        error_code = outcome.error_code;
        error_message = outcome.error_message;
        attempts = outcome.attempts;
        duration_ms = outcome.duration_ms;
        status = d.status;
        validation_status = if passed then ValidationStatus.passed else ValidationStatus.failed;
        consecutive_failures = failures_after row passed;
        score = score;
        service_status = row.service_status;
        notes = d.notes;
      }

  abbrev add_decision : Bool → Decision N → Tally → Tally
  add_decision passed d t = record {
    checked = t.checked + 1;
    passed = if passed then t.passed + 1 else t.passed;
    failed = if passed then t.failed else t.failed + 1;
    added = t.added + d.added;
    retained = t.retained + d.retained;
    quarantined = t.quarantined + d.quarantined;
  }

  -- One round of the loop over the outcomes; an outcome with no row is passed over.
  plan_one :
      ScoringConfig N
      → PlanOptions
      → Option (ProxyRow N)
      → ValidationOutcome N
      → ValidationPlan N
      → ValidationPlan N
  plan_one config options none outcome p = p
  plan_one config options (some row) outcome p = record {
    updates = p.updates ++ (update_of config row outcome options ∷ []);
    tally =
        add_decision outcome.reachable
          (decide config row outcome.reachable (score_of config row outcome options)) p.tally;
  }

  plan_loop :
      ScoringConfig N
      → PlanOptions
      → List (ProxyRow N)
      → List (ValidatedOutcome N)
      → ValidationPlan N
      → ValidationPlan N
  unfolding plan_one
  plan_loop config options rows [] p = p
  plan_loop config options rows (o ∷ os) p =
      plan_loop config options rows os (plan_one config options (by_id o.proxy_id rows) o.outcome p)

  abbrev pub empty_plan : ValidationPlan N
  empty_plan = record {
    updates = [];
    tally = record {
      checked = 0;
      passed = 0;
      failed = 0;
      added = 0;
      retained = 0;
      quarantined = 0;
    };
  }

  unfoldable pub plan_validation :
      WorkerConfig N
      → List (ProxyRow N)
      → List (ValidatedOutcome N)
      → PlanOptions
      → ValidationPlan N
  unfolding plan_loop
  plan_validation w rows outcomes options =
      plan_loop (scoring_of w) options rows outcomes empty_plan
