-- ===== src/Scoring/Records.antt =====
-- shared/src/scoring.ts: the configuration, the input and the outcome of the scoring.
use proxy_pulse_crunchyroll.Prelude.{ℕ, Bool, List, Option}
use proxy_pulse_crunchyroll.Numbers.{Number}
use proxy_pulse_crunchyroll.Types.{ServiceStatus, AnonymityLevel}

pub record ScoringConfig (N : Number) : Type 0 where
  pub ideal_latency_ms : N.Num
  pub max_latency_ms : N.Num
  pub reliability_weight : N.Num
  pub latency_weight : N.Num
  pub freshness_weight : N.Num
  pub service_weight : N.Num
  pub quality_weight : N.Num
  pub freshness_half_life_minutes : N.Num
  pub max_consecutive_failures : ℕ
  pub failure_penalty_points : N.Num
  pub pool_ttl_minutes : ℕ
  pub min_pool_score : N.Num

pub record ScoreInput (N : Number) : Type 0 where
  pub validation_passed : Bool
  pub latency_ms : Option N.Num
  pub check_count : ℕ
  pub pass_count : ℕ
  pub consecutive_failures : ℕ
  pub minutes_since_last_pass : Option N.Num
  pub service_status : ServiceStatus
  pub service_blocked : Bool
  pub source_trust : Option N.Num
  pub anonymity : Option AnonymityLevel

pub data ScoreReason : Type 0 where
  validation_failed service_blocked below_min_pool_score : ScoreReason
  failure_penalty : ℕ → ScoreReason

pub record Factors (N : Number) : Type 0 where
  pub reliability : N.Num
  pub latency : N.Num
  pub freshness : N.Num
  pub service : N.Num
  pub quality : N.Num
  pub penalty : N.Num

pub record ScoreBreakdown (N : Number) : Type 0 where
  pub score : N.Num
  pub factors : Factors N
  pub reasons : List ScoreReason
