-- ===== src/Scoring.antt =====
-- shared/src/scoring.ts: the score of a proxy, over the interface of numbers.
pub mod Bounds
pub mod Eligible
mod Tests
pub mod Records
pub mod Eligibility
use proxy_pulse_crunchyroll.Prelude.{
  ℕ, ◌-◌, ◌*◌, Bool, true, false, not, ◌||◌, List, [], ◌∷◌, ◌++◌, Option, none, some, ltb, leb,
  ◌==◌, if◌then◌else◌, or_default,
}
use proxy_pulse_crunchyroll.Numbers.{Number}
use proxy_pulse_crunchyroll.Types.{
  ServiceStatus, AnonymityLevel, elite, anonymous, transparent, unknown, ProxyStatus, is_active,
  is_service_passed, Stamp, valid, malformed,
}
use proxy_pulse_crunchyroll.Scoring.Records.{
  Factors, ScoreBreakdown, ScoreInput, ScoreReason, ScoringConfig, below_min_pool_score,
  failure_penalty, service_blocked, validation_failed,
}

-- `isExpired` at a time in milliseconds.
unfoldable pub is_expired : Option Stamp → ℕ → ℕ → Bool
is_expired none ttl_minutes now = true
is_expired (some malformed) ttl_minutes now = true
is_expired (some (valid ts)) ttl_minutes now = ltb (ttl_minutes * 60000) (now - ts)

module _ (N : Number) where
  open N use {
    Num, ratio, add, sub, mul, div, power, minimum, maximum, round, fixed3, is_finite, lt, le,
  }

  abbrev pub default_scoring_config : ScoringConfig N
  default_scoring_config = record {
    ideal_latency_ms = ratio 200 1;
    max_latency_ms = ratio 3000 1;
    reliability_weight = ratio 35 100;
    latency_weight = ratio 20 100;
    freshness_weight = ratio 15 100;
    service_weight = ratio 25 100;
    quality_weight = ratio 5 100;
    freshness_half_life_minutes = ratio 45 1;
    max_consecutive_failures = 3;
    failure_penalty_points = ratio 12 1;
    pool_ttl_minutes = 90;
    min_pool_score = ratio 25 1;
  }

  unfoldable pub clamp : Num → Num → Num → Num
  clamp value least most = if lt value least then least else if lt most value then most else value

  abbrev pub clamp01 : Num → Num
  clamp01 value = clamp value (ratio 0 1) (ratio 1 1)

  -- SERVICE_SCORES
  service_scores : ServiceStatus → Num
  service_scores ServiceStatus.passed = ratio 1 1
  service_scores ServiceStatus.untested = ratio 45 100
  service_scores ServiceStatus.skipped = ratio 3 10
  service_scores ServiceStatus.failed = ratio 1 10
  service_scores ServiceStatus.blocked = ratio 0 1

  -- ANONYMITY_SCORES
  anonymity_scores : AnonymityLevel → Num
  anonymity_scores elite = ratio 1 1
  anonymity_scores anonymous = ratio 75 100
  anonymity_scores transparent = ratio 4 10
  anonymity_scores unknown = ratio 6 10

  unfoldable pub latency_score : Option Num → ScoringConfig N → Num
  latency_score none config = ratio 0 1
  latency_score (some ms) config =
      if not (is_finite ms) || le ms (ratio 0 1)
      then ratio 0 1
      else if le ms config.ideal_latency_ms
      then ratio 1 1
      else if le config.max_latency_ms ms
      then ratio 0 1
      else clamp01
          (div (sub config.max_latency_ms ms) (sub config.max_latency_ms config.ideal_latency_ms))

  unfoldable pub freshness_score : Option Num → ScoringConfig N → Num
  freshness_score none config = ratio 0 1
  freshness_score (some minutes) config =
      if not (is_finite minutes)
      then ratio 0 1
      else if le minutes (ratio 0 1)
      then ratio 1 1
      else clamp01 (power (ratio 5 10) (div minutes config.freshness_half_life_minutes))

  unfoldable pub reliability_score : ℕ → ℕ → Bool → Num
  reliability_score check_count pass_count validation_passed =
      if check_count == 0
      then (if validation_passed then ratio 5 10 else ratio 0 1)
      else clamp01 (div (ratio pass_count 1) (ratio check_count 1))

  -- The penalty for failures in a row, before that for a blocked service.
  failure_penalty_of : ℕ → ScoringConfig N → Num
  failure_penalty_of failures config = minimum (ratio 40 1) (
      add (mul (ratio (failures - 1) 1) config.failure_penalty_points)
        (if ltb 0 failures then div config.failure_penalty_points (ratio 2 1) else ratio 0 1))

  penalty_of : ScoreInput N → ScoringConfig N → Num
  unfolding failure_penalty_of
  penalty_of input config = minimum (ratio 60 1) (
      if input.service_blocked
      then add (failure_penalty_of input.consecutive_failures config) (ratio 25 1)
      else failure_penalty_of input.consecutive_failures config)

  -- The weighted sum and the sum of the weights.
  weighted_of : ScoringConfig N → Num → Num → Num → Num → Num → Num
  weighted_of config reliability latency freshness service quality =
      add
        (add
          (add (add (mul config.reliability_weight reliability) (mul config.latency_weight latency))
            (mul config.freshness_weight freshness))
          (mul config.service_weight service))
        (mul config.quality_weight quality)

  weight_sum : ScoringConfig N → Num
  weight_sum config =
      add
        (add (add (add config.reliability_weight config.latency_weight) config.freshness_weight)
          config.service_weight)
        config.quality_weight

  quality_of : ScoreInput N → Num
  unfolding anonymity_scores
  quality_of input =
      let trust = clamp01 (or_default input.source_trust (ratio 5 10)) in
      clamp01 (
        add (mul trust (ratio 6 10))
          (mul (anonymity_scores (or_default input.anonymity unknown)) (ratio 4 10)))

  zero_factors : Factors N
  zero_factors = record {
    reliability = ratio 0 1;
    latency = ratio 0 1;
    freshness = ratio 0 1;
    service = ratio 0 1;
    quality = ratio 0 1;
    penalty = ratio 0 1;
  }

  abbrev when : Bool → ScoreReason → List ScoreReason
  when true reason = reason ∷ []
  when false reason = []

  unfoldable pub score_proxy_detailed : ScoreInput N → ScoringConfig N → ScoreBreakdown N
  unfolding service_scores penalty_of weighted_of weight_sum quality_of zero_factors
  score_proxy_detailed input config =
      if not input.validation_passed
      then record { score = ratio 0 1; factors = zero_factors; reasons = validation_failed ∷ [] }
      else (let reliability =
            reliability_score input.check_count input.pass_count input.validation_passed in
          let latency = latency_score input.latency_ms config in
          let freshness = freshness_score input.minutes_since_last_pass config in
          let service = clamp01 (service_scores input.service_status) in
          let quality = quality_of input in
          let penalty = penalty_of input config in
          let weighted = weighted_of config reliability latency freshness service quality in
          let score = round (
            clamp (sub (mul (div weighted (weight_sum config)) (ratio 100 1)) penalty) (ratio 0 1)
              (ratio 100 1)) in
          record {
            score = score;
            factors = record {
              reliability = fixed3 reliability;
              latency = fixed3 latency;
              freshness = fixed3 freshness;
              service = fixed3 service;
              quality = fixed3 quality;
              penalty = penalty;
            };
            reasons =
                when input.service_blocked service_blocked
                ++ (when (lt (ratio 0 1) penalty) (failure_penalty input.consecutive_failures)
                    ++ when (lt score config.min_pool_score) below_min_pool_score);
          })

  unfoldable pub score_proxy : ScoreInput N → ScoringConfig N → Num
  score_proxy input config = (score_proxy_detailed input config).score

  unfoldable pub should_quarantine : ℕ → ScoringConfig N → Bool
  should_quarantine failures config = leb config.max_consecutive_failures failures

  unfoldable pub minutes_since : Option Stamp → ℕ → Option Num
  minutes_since none now = none
  minutes_since (some malformed) now = none
  minutes_since (some (valid ts)) now = some (div (sub (ratio now 1) (ratio ts 1)) (ratio 60000 1))

  -- `combineScores` at the weight `weight`, `Math.min(1, Math.max(0, …))` of the option.
  unfoldable pub unit_clamp : Num → Num
  unit_clamp x = minimum (ratio 1 1) (maximum (ratio 0 1) x)

  unfoldable pub combine_scores : Num → Option Num → Option Num → Num
  combine_scores connectivity none connectivity_weight =
      round (mul (unit_clamp (div connectivity (ratio 100 1))) (ratio 100 1))
  combine_scores connectivity (some service_quality) connectivity_weight =
      let weight = unit_clamp (or_default connectivity_weight (ratio 55 100)) in
      let base = unit_clamp (div connectivity (ratio 100 1)) in
      let quality = unit_clamp service_quality in
      round (
        mul (unit_clamp (add (mul base weight) (mul quality (sub (ratio 1 1) weight))))
          (ratio 100 1))
