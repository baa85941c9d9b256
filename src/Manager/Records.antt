-- ===== src/Manager/Records.antt =====
-- worker/src/pool/manager.ts: what comes into the pool manager and what it plans, and the part of the
-- configuration that it reads.
use proxy_pulse_crunchyroll.Prelude.{ℕ, Bool, List, Option}
use proxy_pulse_crunchyroll.Text.{Text}
use proxy_pulse_crunchyroll.Numbers.{Number}
use proxy_pulse_crunchyroll.Types.{ProxyProtocol, ProxyStatus, ValidationStatus, ServiceStatus}
use proxy_pulse_crunchyroll.Scoring.Records.{ScoringConfig}
use proxy_pulse_crunchyroll.Db.{Note}

-- The outcome of a validation, in worker/src/validation/checker.ts; the fields that are passed on.
pub record ValidationOutcome (N : Number) : Type 0 where
  pub reachable : Bool
  pub latency_ms : Option N.Num
  pub http_status : Option ℕ
  pub error_code : Option Text
  pub error_message : Option Text
  pub attempts : ℕ
  pub duration_ms : N.Num
  pub transport : Option Text

pub record ValidatedOutcome (N : Number) : Type 0 where
  pub proxy_id : ℕ
  pub outcome : ValidationOutcome N

-- The `ValidationOutcome` of db, which is written to the row and to the history.
pub record ValidationUpdate (N : Number) : Type 0 where
  pub id : ℕ
  pub cycle_id : Text
  pub created_at : ℕ
  pub reachable : Bool
  pub latency_ms : Option N.Num
  pub protocol : ProxyProtocol
  pub transport : Option Text
  pub http_status : Option ℕ
  pub error_code : Option Text
  pub error_message : Option Text
  pub attempts : ℕ
  pub duration_ms : N.Num
  pub status : ProxyStatus
  pub validation_status : ValidationStatus
  pub consecutive_failures : ℕ
  pub score : N.Num
  pub service_status : ServiceStatus
  pub notes : Option (Note N)

pub record Tally : Type 0 where
  pub checked : ℕ
  pub passed : ℕ
  pub failed : ℕ
  pub added : ℕ
  pub retained : ℕ
  pub quarantined : ℕ

pub record ValidationPlan (N : Number) : Type 0 where
  pub updates : List (ValidationUpdate N)
  pub tally : Tally

pub record ServiceStageResult (N : Number) : Type 0 where
  pub proxy_id : ℕ
  pub status : ServiceStatus
  pub latency_ms : Option N.Num
  pub http_status : Option ℕ
  pub reason : Option Text
  pub details : Option Text
  pub quality : Option N.Num

pub record ServiceOutcome (N : Number) : Type 0 where
  pub id : ℕ
  pub cycle_id : Text
  pub service : Text
  pub created_at : ℕ
  pub passed : Bool
  pub status : ServiceStatus
  pub http_status : Option ℕ
  pub latency_ms : Option N.Num
  pub reason : Option Text
  pub details : Option Text
  pub score : N.Num
  pub status_next : ProxyStatus

-- The status that a validation leads to, its note, and which of the pool's tallies it adds to.
pub record Decision (N : Number) : Type 0 where
  pub status : ProxyStatus
  pub notes : Option (Note N)
  pub added : ℕ
  pub retained : ℕ
  pub quarantined : ℕ

-- The pool's part of the configuration.
pub record PoolConfig (N : Number) : Type 0 where
  pub ttl_minutes : ℕ
  pub max_consecutive_failures : ℕ
  pub min_score : N.Num
  pub ideal_latency_ms : N.Num
  pub max_latency_ms : N.Num
  pub max_active : ℕ

pub record WorkerConfig (N : Number) : Type 0 where
  pub scoring : ScoringConfig N
  pub pool : PoolConfig N
  pub service : Text
