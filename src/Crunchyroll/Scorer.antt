-- ===== src/Crunchyroll/Scorer.antt =====
-- services/crunchyroll/src/scorer.ts: the service factor of a proxy, which proxies to probe, and the
-- circuit breaker for the whole service.
pub mod Breaker
use proxy_pulse_crunchyroll.Prelude.{
  ℕ, ◌-◌, ◌≡◌, ◌↔◌, ◌⊎◌, Bool, true, false, not, ◌&&◌, List, [], ◌∷◌, Option, none, some, arith,
  if◌then◌else◌, or_default,
}
use proxy_pulse_crunchyroll.Numbers.{Number}
use proxy_pulse_crunchyroll.Types.{ServiceStatus, is_service_passed, is_service_blocked}
use proxy_pulse_crunchyroll.Scoring.{clamp01}
use proxy_pulse_crunchyroll.Crunchyroll.Rules.{Verdict, passed, failed, blocked, skipped}

unfoldable pub status_for_verdict : Verdict → ServiceStatus
status_for_verdict passed = ServiceStatus.passed
status_for_verdict blocked = ServiceStatus.blocked
status_for_verdict skipped = ServiceStatus.skipped
status_for_verdict failed = ServiceStatus.failed

pub data ServiceReason : Type 0 where
  slow_service_response service_blocked_proxy no_service_verdict service_check_failed :
      ServiceReason

pub record ServiceScoreInput (N : Number) : Type 0 where
  pub verdict : Verdict
  pub latency_ms : Option N.Num
  pub consecutive_service_failures : ℕ
  pub ideal_latency_ms : Option N.Num
  pub max_latency_ms : Option N.Num

pub record ServiceScore (N : Number) : Type 0 where
  pub quality : N.Num
  pub status : ServiceStatus
  pub reasons : List ServiceReason

module _ (N : Number) where
  open N use {Num, ratio, add, sub, mul, div, minimum, maximum, is_finite, lt}

  -- The latency of a passed probe, as a factor.
  latency_factor : ServiceScoreInput N → Num
  latency_factor input =
      let ideal = or_default input.ideal_latency_ms (ratio 400 1) in
      let most = or_default input.max_latency_ms (ratio 5000 1) in
      elim input.latency_ms [
        | none ↦ ratio 6 10
        | some latency ↦
            if not (is_finite latency)
            then ratio 6 10
            else clamp01 N
                (div (sub most latency) (sub most (maximum (ratio 1 1) (sub ideal (ratio 1 1)))))
      ]

  passed_score : ServiceScoreInput N → ServiceScore N
  unfolding latency_factor
  passed_score input =
      let factor = latency_factor input in
      let stability = clamp01 N (
        sub (ratio 1 1) (
          mul (ratio 25 100) (maximum (ratio 0 1) (ratio input.consecutive_service_failures 1)))) in
      record {
        quality =
            clamp01 N
              (add (add (ratio 7 10) (mul (ratio 2 10) factor)) (mul (ratio 1 10) stability));
        status = ServiceStatus.passed;
        reasons = if lt factor (ratio 4 10) then slow_service_response ∷ [] else [];
      }

  failed_score : ServiceScoreInput N → ServiceScore N
  failed_score input = record {
    quality = maximum (ratio 0 1) (
        sub (ratio 1 10) (
          minimum (ratio 3 10)
            (mul (ratio 1 10) (ratio (input.consecutive_service_failures - 1) 1))));
    status = ServiceStatus.failed;
    reasons = service_check_failed ∷ [];
  }

  unfoldable pub service_score : ServiceScoreInput N → ServiceScore N
  unfolding passed_score failed_score
  service_score input = elim input.verdict [
    | passed ↦ passed_score input
    | blocked ↦ record {
      quality = ratio 5 100;
      status = ServiceStatus.blocked;
      reasons = service_blocked_proxy ∷ [];
    }
    | skipped ↦ record {
      quality = ratio 5 10;
      status = ServiceStatus.skipped;
      reasons = no_service_verdict ∷ [];
    }
    | failed ↦ failed_score input
  ]

  pub record ServiceCandidate : Type 0 where
    pub score : Num
    pub service_status : ServiceStatus
    pub min_score : Num
    pub allow_retest_blocked : Bool

  unfoldable pub should_check_service : ServiceCandidate → Bool
  should_check_service input =
      if lt input.score input.min_score
      then false
      else if is_service_passed input.service_status
      then false
      else if is_service_blocked input.service_status && not input.allow_retest_blocked
      then false
      else true

  -- A proxy is probed exactly when its score reaches the minimum, the service has not already passed
  -- it, and it is not blocked, unless blocked proxies are to be tried again.
  pub should_check_service_iff :
      (input : ServiceCandidate)
      → (should_check_service input ≡ true) ↔ (
          (lt input.score input.min_score ≡ false)
          × ((is_service_passed input.service_status ≡ false)
              × ((is_service_blocked input.service_status ≡ false)
                  ⊎ (input.allow_retest_blocked ≡ true))))
  unfolding should_check_service
  should_check_service_iff input = ground arith

  -- The status that comes with a score is the one that the verdict stands for.
  pub service_score-status :
      (input : ServiceScoreInput N)
      → (service_score input).status ≡ status_for_verdict input.verdict
  unfolding service_score status_for_verdict passed_score failed_score
  service_score-status input = ground arith
