-- ===== src/Manager/Transitions.antt =====
-- The status machine of a proxy under validation.
use proxy_pulse_crunchyroll.Prelude.{
  ℕ, ◌+◌, ◌*◌, ◌<◌, ◌≤◌, ◌≡◌, ◌≢◌, ◌↔◌, ◌⊎◌, Bool, true, false, none, arith,
}
use proxy_pulse_crunchyroll.Numbers.{Number}
use proxy_pulse_crunchyroll.Types.{ProxyStatus, new, pending, active, quarantined, dead}
use proxy_pulse_crunchyroll.Scoring.Records.{ScoringConfig}
use proxy_pulse_crunchyroll.Db.{ProxyRow}
use proxy_pulse_crunchyroll.Manager.{decide}

module _ (N : Number) (config : ScoringConfig N) (row : ProxyRow N) (passed : Bool)
    (score : N.Num) where
  -- The validation failed, and this was at least the n-th failure in a row.
  abbrev pub FailedTimes : ℕ → Type 0
  FailedTimes n = (passed ≡ false) × (n ≤ row.consecutive_failures + 1)

  -- It failed, with fewer failures in a row than the threshold.
  abbrev pub FailedEarly : Type 0
  FailedEarly = (passed ≡ false) × (row.consecutive_failures + 1 < config.max_consecutive_failures)

  abbrev pub IsHopeless : Type 0
  IsHopeless =
      (row.last_passed_at ≡ none)
      × (config.max_consecutive_failures * 3 ≤ row.consecutive_failures + 1)

  -- When a validation leads to each status.
  abbrev pub LeadsTo : ProxyStatus → Type 0
  LeadsTo active =
      ((passed ≡ true) × (N.le config.min_pool_score score ≡ true))
      ⊎ (FailedEarly × (row.status ≡ active))
  LeadsTo dead = FailedTimes config.max_consecutive_failures × IsHopeless
  LeadsTo quarantined =
      ((passed ≡ true) × (N.le config.min_pool_score score ≡ false))
      ⊎ (FailedTimes config.max_consecutive_failures × (¬ IsHopeless))
      ⊎ (FailedEarly × (row.status ≡ quarantined))
  LeadsTo new = FailedEarly × (row.status ≢ active) × (row.status ≢ quarantined)
  LeadsTo pending = ⊥

  -- A validation leads to a status exactly when the rules say so: a pass at or above the minimum
  -- score makes the proxy active and any other pass quarantines it; a failure below the threshold
  -- leaves an active or a quarantined proxy as it is and any other new; at the threshold a proxy
  -- that never passed, with three times as many failures, is dead, and any other is quarantined.
  pub decide-status_iff :
      (s : ProxyStatus) → ((decide N config row passed score).status ≡ s) ↔ LeadsTo s
  unfolding decide
  decide-status_iff active = ground arith
  decide-status_iff dead = ground arith
  decide-status_iff quarantined = ground arith
  decide-status_iff new = ground arith
  decide-status_iff pending = ground arith
