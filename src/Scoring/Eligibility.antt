-- ===== src/Scoring/Eligibility.antt =====
-- shared/src/scoring.ts: isPoolEligible.
use proxy_pulse_crunchyroll.Prelude.{
  ℕ, Bool, true, false, not, ◌&&◌, Option, none, some, if◌then◌else◌, or_default,
}
use proxy_pulse_crunchyroll.Numbers.{Number}
use proxy_pulse_crunchyroll.Types.{ServiceStatus, ProxyStatus, is_active, is_service_passed, Stamp}
use proxy_pulse_crunchyroll.Scoring.{default_scoring_config, is_expired}

pub record EligibilityInput (N : Number) : Type 0 where
  pub status : ProxyStatus
  pub score : N.Num
  pub last_passed_at : Option Stamp
  pub service_status : ServiceStatus

pub record EligibilityOptions (N : Number) : Type 0 where
  pub require_service_pass : Bool
  pub min_score : Option N.Num
  pub max_latency_ms : Option N.Num
  pub latency_ms : Option N.Num
  pub ttl_minutes : Option ℕ
  pub now : ℕ

abbrev pub too_slow : (N : Number) → Option N.Num → Option N.Num → Bool
too_slow N none latency = false
too_slow N (some most) none = false
too_slow N (some most) (some latency) = N.lt most latency

unfoldable pub is_pool_eligible : (N : Number) → EligibilityInput N → EligibilityOptions N → Bool
is_pool_eligible N r o =
    if not (is_active r.status)
    then false
    else if N.lt r.score (or_default o.min_score (default_scoring_config N).min_pool_score)
    then false
    else if is_expired r.last_passed_at (or_default o.ttl_minutes 90) o.now
    then false
    else if o.require_service_pass && not (is_service_passed r.service_status)
    then false
    else if too_slow N o.max_latency_ms o.latency_ms
    then false
    else true
