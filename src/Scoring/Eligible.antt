-- ===== src/Scoring/Eligible.antt =====
-- Who may be in the public pool.
use proxy_pulse_crunchyroll.Prelude.{
  ℕ, ◌+◌, ◌*◌, ◌≤◌, ◌≡◌, refl, ◌↔◌, ◌⊎◌, true, false, not, ◌&&◌, Option, none, some, arith,
  or_default,
}
use proxy_pulse_crunchyroll.Numbers.{Number}
use proxy_pulse_crunchyroll.Types.{
  ProxyStatus, active, is_active, is_service_passed, ServiceStatus, Stamp, valid, malformed,
}
use proxy_pulse_crunchyroll.Scoring.{is_expired, default_scoring_config}
use proxy_pulse_crunchyroll.Scoring.Eligibility.{
  EligibilityInput, EligibilityOptions, is_pool_eligible, too_slow,
}

-- The last success lies no further back than the time to live.
pub data IsFresh : Option Stamp → ℕ → ℕ → Type 0 where
  passed_at : {ttl now : ℕ} (ts : ℕ) → now ≤ ts + ttl * 60000 → IsFresh (some (valid ts)) ttl now

-- No limit, no measurement, or a latency that is not above the limit.
pub data IsQuick (N : Number) : Option N.Num → Option N.Num → Type 0 where
  no_limit : {latency : Option N.Num} → IsQuick N none latency
  not_measured : {most : Option N.Num} → IsQuick N most none
  measured :
      {most latency : N.Num} → N.lt most latency ≡ false → IsQuick N (some most) (some latency)

pub record IsEligible (N : Number) (r : EligibilityInput N) (o : EligibilityOptions N)
    : Type 0 where
  pub in_pool : r.status ≡ active
  pub good : N.lt r.score (or_default o.min_score (default_scoring_config N).min_pool_score) ≡ false
  pub fresh : IsFresh r.last_passed_at (or_default o.ttl_minutes 90) o.now
  pub approved : (o.require_service_pass ≡ false) ⊎ (r.service_status ≡ ServiceStatus.passed)
  pub quick : IsQuick N o.max_latency_ms o.latency_ms

is_expired→IsFresh :
    (s : Option Stamp) (ttl now : ℕ) → is_expired s ttl now ≡ false → IsFresh s ttl now
unfolding is_expired
is_expired→IsFresh none ttl now e = cc
is_expired→IsFresh (some malformed) ttl now e = cc
is_expired→IsFresh (some (valid ts)) ttl now e = passed_at ts (ground arith)

IsFresh→is_expired :
    {s : Option Stamp} {ttl now : ℕ} → IsFresh s ttl now → is_expired s ttl now ≡ false
unfolding is_expired
IsFresh→is_expired (passed_at ts h) = ground arith

too_slow→IsQuick : (N : Number) (a b : Option N.Num) → too_slow N a b ≡ false → IsQuick N a b
too_slow→IsQuick N none b e = no_limit
too_slow→IsQuick N (some a) none e = not_measured
too_slow→IsQuick N (some a) (some b) e = measured e

IsQuick→too_slow : (N : Number) {a b : Option N.Num} → IsQuick N a b → too_slow N a b ≡ false
IsQuick→too_slow N no_limit = refl
IsQuick→too_slow N (not_measured {most = none}) = refl
IsQuick→too_slow N (not_measured {most = some a}) = refl
IsQuick→too_slow N (measured e) = e

is_active_iff : (s : ProxyStatus) → (is_active s ≡ true) ↔ (s ≡ active)
is_active_iff s = ground arith

is_service_passed_iff :
    (s : ServiceStatus) → (is_service_passed s ≡ true) ↔ (s ≡ ServiceStatus.passed)
is_service_passed_iff s = ground arith

module _ (N : Number) (r : EligibilityInput N) (o : EligibilityOptions N) where
  tests_passed :
      is_pool_eligible N r o ≡ true
      → (is_active r.status ≡ true)
        × (N.lt r.score (or_default o.min_score (default_scoring_config N).min_pool_score) ≡ false)
        × (is_expired r.last_passed_at (or_default o.ttl_minutes 90) o.now ≡ false)
        × ((o.require_service_pass && not (is_service_passed r.service_status)) ≡ false)
        × (too_slow N o.max_latency_ms o.latency_ms ≡ false)
  unfolding is_pool_eligible
  tests_passed e = ground arith

  -- A proxy is eligible exactly when it is active, its score is not below the minimum (25 by
  -- default), its last success has a valid time no further back than the time to live (90 minutes
  -- by default), the service has passed it if that is required, and its latency is not above the
  -- limit, where both are given.
  pub is_pool_eligible_iff : (is_pool_eligible N r o ≡ true) ↔ IsEligible N r o
  unfolding is_pool_eligible
  is_pool_eligible_iff = (
    λ e.
        (let (a, g, f, s, q) = tests_passed e in
          record {
            in_pool = (is_active_iff r.status).0 a;
            good = g;
            fresh = is_expired→IsFresh r.last_passed_at _ o.now f;
            approved = ground (arith, is_service_passed_iff r.service_status);
            quick = too_slow→IsQuick N o.max_latency_ms o.latency_ms q;
          }),
    λ v. ground (
      arith,
      (is_active_iff r.status).1 v.in_pool,
      v.good,
      IsFresh→is_expired v.fresh,
      v.approved,
      is_service_passed_iff r.service_status,
      IsQuick→too_slow N v.quick,
    ),
  )
