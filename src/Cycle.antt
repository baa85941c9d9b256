-- ===== src/Cycle.antt =====
-- worker/src/pipeline/cycle.ts: runCycle, the refresh cycle. This file has its state, its calls and
-- what they may do; Stages, Validating and Serving have the stages, Running their order and what
-- happens when one throws.
pub mod Stages
pub mod Validating
pub mod Serving
pub mod Records
pub mod Running
pub mod External
pub mod Outcomes
pub mod Keeping
pub mod Report
pub mod Completing
pub mod Ending
mod Tests
use proxy_pulse_crunchyroll.Prelude.{ℕ, Bool, List, Option, none, some}
use proxy_pulse_crunchyroll.Text.{Text}
use proxy_pulse_crunchyroll.Numbers.{Number}
use proxy_pulse_crunchyroll.Types.{ServiceStatus}
use proxy_pulse_crunchyroll.Crunchyroll.Rules.{Verdict}
use proxy_pulse_crunchyroll.Queue.{ProxyJob}
use proxy_pulse_crunchyroll.Db.{ProxyRow}
use proxy_pulse_crunchyroll.Db.Sweeps.{Table}
use proxy_pulse_crunchyroll.Db.Queries.{Candidate}
use proxy_pulse_crunchyroll.Manager.Records.{ValidationOutcome, WorkerConfig}

pub data CycleStatus : Type 0 where
  running completed failed : CycleStatus

-- RefreshCycleRecord: what `complete` writes into the row of the cycle.
pub record CycleCounts : Type 0 where
  pub candidates_discovered : ℕ
  pub candidates_new : ℕ
  pub candidates_checked : ℕ
  pub candidates_passed : ℕ
  pub candidates_failed : ℕ
  pub service_checked : ℕ
  pub service_passed : ℕ
  pub pool_size : ℕ
  pub pool_added : ℕ
  pub pool_quarantined : ℕ
  pub pool_expired : ℕ

pub record CycleRow : Type 0 where
  pub cycle_id : Text
  pub status : CycleStatus
  pub started_at : ℕ
  pub finished_at : Option ℕ
  pub counts : Option CycleCounts
  pub error : Option Text

-- The entries of the table `meta`, by META_KEYS.
pub record Meta : Type 0 where
  pub next_run_at : Option ℕ
  pub current_cycle_id : Option Text
  pub last_completed_cycle_id : Option Text
  pub last_cycle_error : Option Text
  pub stats_snapshot : Option Text
  pub last_prune_at : Option ℕ

pub record DiscoveryReport : Type 0 where
  pub sources_ok : ℕ
  pub sources_failed : ℕ
  pub discovered : ℕ
  pub accepted : ℕ
  pub rejected : ℕ
  pub duplicates : ℕ
  pub blocked_by_policy : ℕ
  pub upserted : ℕ
  pub inserted : ℕ

pub record ValidationReport : Type 0 where
  pub queued : ℕ
  pub checked : ℕ
  pub passed : ℕ
  pub failed : ℕ
  pub added : ℕ
  pub retained : ℕ

pub record ServiceReport : Type 0 where
  pub queued : ℕ
  pub checked : ℕ
  pub passed : ℕ
  pub blocked : ℕ
  pub failed : ℕ
  pub skipped : ℕ

pub record PoolReport : Type 0 where
  pub size : ℕ
  pub expired : ℕ
  pub quarantined : ℕ
  pub demoted : ℕ
  pub released : ℕ

-- CycleReport, less the trigger, the durations, the sources and whether the service is enabled.
pub record CycleReport : Type 0 where
  pub status : CycleStatus
  pub finished_at : ℕ
  pub discovery : DiscoveryReport
  pub validation : ValidationReport
  pub service : ServiceReport
  pub pool : PoolReport
  pub error : Option Text

-- What `discovery(cycleId).run()` gives; `trust` is `trustByDedupeKey`.
pub record DiscoveryRun (N : Number) : Type 0 where
  pub candidates : List Candidate
  pub discovered : ℕ
  pub rejected : ℕ
  pub duplicates : ℕ
  pub sources_ok : ℕ
  pub sources_failed : ℕ
  pub trust : List (Text × N.Num)

-- What the service checker gives; `details` is the summary that is persisted.
pub record CheckResult (N : Number) : Type 0 where
  pub verdict : Verdict
  pub status : ServiceStatus
  pub latency_ms : Option N.Num
  pub http_status : Option ℕ
  pub reason : Option Text
  pub details : Option Text

-- The part of the configuration that only the cycle reads.
pub record CycleConfig (N : Number) : Type 0 where
  pub worker : WorkerConfig N
  pub allow_private_endpoints : Bool
  pub max_new_per_cycle : ℕ
  pub max_quarantine_recheck_per_cycle : ℕ
  pub max_recheck_per_cycle : ℕ
  pub recheck_after_minutes : ℕ
  pub validation_max_per_cycle : ℕ
  pub service_enabled : Bool
  pub service_max_checks_per_cycle : ℕ
  pub service_min_score : N.Num
  pub service_recheck_after_minutes : ℕ
  pub interval_minutes : ℕ
  pub cycle_days : ℕ

-- The awaited calls of a cycle, in their order.
pub data Call : Type 0 where
  start_cycle set_current : Call
  discover upsert : Call
  select_queue claim send_validations consume_validations persist_validations : Call
  read_rows select_services send_checks consume_checks persist_checks : Call
  sweep_pool compute_stats store_stats : Call
  complete_cycle set_completed clear_error set_next_run : Call
  read_prune prune_history set_prune : Call
  fail_cycle record_error release_pending remove_current : Call

-- The message of a call that rejects, and the table that it leaves behind: a call of several
-- statements may have done some of them.
pub record Fault (N : Number) : Type 0 where
  pub message : Text
  pub left : Table N → Table N

-- What the cycle is given, a call being made at most once in a cycle: which calls reject; the time at
-- each; the outcome of the discovery and of each check over the network; the queue, by the jobs among
-- those sent whose handler returned, in that order; the JSON of the statistics; and the rows that have
-- not been seen within the retention.
pub record Deps (N : Number) : Type 0 where
  pub config : CycleConfig N
  pub fault : Call → Option (Fault N)
  pub now : Call → ℕ
  pub discovery : DiscoveryRun N
  pub validate : ProxyJob → ProxyRow N → ValidationOutcome N
  pub check : ProxyJob → ProxyRow N → CheckResult N
  pub drain : List ProxyJob → List ProxyJob
  pub job_id : Call → ℕ → Text
  pub iso : ℕ → Text
  pub stats : ℕ → Table N → Text
  pub is_unseen : ℕ → ProxyRow N → Bool

pub record CycleState (N : Number) : Type 0 where
  pub table : Table N
  pub cycles : List CycleRow
  pub meta : Meta
  pub report : CycleReport

-- What an awaited step gives: a value, or the message of what it throws.
pub data StepResult {ℓ} (A : Type ℓ) : Type ℓ where
  ok : A → StepResult A
  thrown : Text → StepResult A

abbrev pub CycleStep {ℓ} : Number → Type ℓ → Type ℓ
CycleStep N A = CycleState N → StepResult A × CycleState N

module _ {N : Number} where
  abbrev pub next {ℓ κ} :
      {A : Type ℓ} {B : Type κ}
      → (A → CycleStep N B)
      → StepResult A × CycleState N
      → StepResult B × CycleState N
  next f (ok a, s) = f a s
  next f (thrown m, s) = (thrown m, s)

  unfoldable pub pure {ℓ} : {A : Type ℓ} → A → CycleStep N A
  pure a s = (ok a, s)

  unfoldable pub modify : (CycleState N → CycleState N) → CycleStep N (Unit {0})
  modify f s = (ok tt, f s)

  abbrev pub perform {ℓ} : {A : Type ℓ} → Option (Fault N) → CycleStep N A → CycleStep N A
  perform none step s = step s
  perform (some f) step s = (thrown f.message, record s { table = f.left s.table })

  -- An awaited call.
  unfoldable pub call {ℓ} : {A : Type ℓ} → Deps N → Call → CycleStep N A → CycleStep N A
  call deps c step s = perform (deps.fault c) step s

infixl 5 ◌>>=◌ ◌>>◌
unfoldable pub ◌>>=◌ {ℓ κ} :
    {N : Number} {A : Type ℓ} {B : Type κ} → CycleStep N A → (A → CycleStep N B) → CycleStep N B
◌>>=◌ m f s = next f (m s)

abbrev pub ◌>>◌ {ℓ κ} :
    {N : Number} {A : Type ℓ} {B : Type κ} → CycleStep N A → CycleStep N B → CycleStep N B
m >> k = m >>= λ _. k
