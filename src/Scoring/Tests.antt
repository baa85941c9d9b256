-- ===== src/Scoring/Tests.antt =====
-- Runs of the scoring, and its theorems at concrete inputs, over numbers counted in thousandths.
use proxy_pulse_crunchyroll.Prelude.{◌≡◌, refl, ◌↔◌, true, false, none, some}
use proxy_pulse_crunchyroll.Numbers.Thousandths.{thousandths, round_to_whole}
use proxy_pulse_crunchyroll.Types.{ServiceStatus, elite, active, valid}
use proxy_pulse_crunchyroll.Scoring.{
  is_expired, default_scoring_config, score_proxy_detailed, latency_score, freshness_score, clamp,
  reliability_score,
}
use proxy_pulse_crunchyroll.Scoring.Eligibility.{
  EligibilityInput, EligibilityOptions, is_pool_eligible,
}
use proxy_pulse_crunchyroll.Scoring.Records.{ScoringConfig, ScoreInput}
use proxy_pulse_crunchyroll.Scoring.Eligible.{IsEligible, is_pool_eligible_iff}

abbrev fast : ScoreInput thousandths
fast = record {
  validation_passed = true;
  latency_ms = some 150000;
  check_count = 4;
  pass_count = 3;
  consecutive_failures = 0;
  minutes_since_last_pass = some 0;
  service_status = ServiceStatus.passed;
  service_blocked = false;
  source_trust = none;
  anonymity = some elite;
}

abbrev config : ScoringConfig thousandths
config = default_scoring_config thousandths

-- 0.35 * 0.75 + 0.2 + 0.15 + 0.25 + 0.05 * 0.7, as a percentage.
fast_score : (score_proxy_detailed thousandths fast config).score ≡ 90000
unfolding score_proxy_detailed clamp reliability_score latency_score freshness_score round_to_whole
fast_score = refl

abbrev listed : EligibilityInput thousandths
listed = record {
  status = active;
  score = 90000;
  last_passed_at = some (valid 1000000);
  service_status = ServiceStatus.passed;
}

abbrev strict : EligibilityOptions thousandths
strict = record {
  require_service_pass = true;
  min_score = none;
  max_latency_ms = some 500000;
  latency_ms = some 150000;
  ttl_minutes = some 1;
  now = 1060000;
}

listed_eligible : is_pool_eligible thousandths listed strict ≡ true
unfolding is_pool_eligible is_expired
listed_eligible = refl

is_pool_eligible_iff_example :
    (is_pool_eligible thousandths listed strict ≡ true) ↔ IsEligible thousandths listed strict
is_pool_eligible_iff_example = is_pool_eligible_iff thousandths listed strict
