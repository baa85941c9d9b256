-- ===== src/Manager/Tallies.antt =====
-- What the tallies of a plan count.
use proxy_pulse_crunchyroll.Prelude.{
  ℕ, ◌+◌, ◌≡◌, refl, ap, Bool, List, [], ◌∷◌, ◌++◌, Option, none, some, arith, if◌then◌else◌,
  length, length-append,
}
use proxy_pulse_crunchyroll.Numbers.{Number}
use proxy_pulse_crunchyroll.Types.{is_active, is_quarantined}
use proxy_pulse_crunchyroll.Scoring.Records.{ScoringConfig}
use proxy_pulse_crunchyroll.Db.{ProxyRow}
use proxy_pulse_crunchyroll.Manager.{
  scoring_of, decide, update_of, score_of, plan_one, plan_loop, plan_validation, PlanOptions, by_id,
}
use proxy_pulse_crunchyroll.Manager.Records.{
  WorkerConfig, ValidationPlan, ValidationUpdate, ValidatedOutcome, ValidationOutcome,
}

module _ (N : Number) where
  -- How many updates satisfy a test.
  abbrev pub tally_of : (ValidationUpdate N → Bool) → List (ValidationUpdate N) → ℕ
  tally_of p [] = 0
  tally_of p (u ∷ us) = (if p u then 1 else 0) + tally_of p us

  tally_of-append :
      (p : ValidationUpdate N → Bool) (us vs : List (ValidationUpdate N))
      → tally_of p (us ++ vs) ≡ tally_of p us + tally_of p vs
  tally_of-append p [] vs = omega arith
  tally_of-append p (u ∷ us) vs = omega (arith, tally_of-append p us vs)

  abbrev pub reached : ValidationUpdate N → Bool
  reached u = u.reachable

  abbrev pub made_active : ValidationUpdate N → Bool
  made_active u = is_active u.status

  abbrev pub made_quarantined : ValidationUpdate N → Bool
  made_quarantined u = is_quarantined u.status

  -- The tallies agree with the updates.
  pub record Counts (p : ValidationPlan N) : Type 0 where
    pub checked : (p.tally).checked ≡ length p.updates
    pub both : (p.tally).passed + (p.tally).failed ≡ (p.tally).checked
    pub passes : (p.tally).passed ≡ tally_of reached p.updates
    pub members : (p.tally).added + (p.tally).retained ≡ tally_of made_active p.updates
    pub removed : (p.tally).quarantined ≡ tally_of made_quarantined p.updates

  -- One decision adds to one tally at most, as its status says.
  decide_counts :
      (config : ScoringConfig N) (row : ProxyRow N) (passed : Bool) (score : N.Num)
      → let d = decide N config row passed score in
        (d.added + d.retained ≡ (if is_active d.status then 1 else 0))
        × (d.quarantined ≡ (if is_quarantined d.status then 1 else 0))
  unfolding decide
  decide_counts config row passed score = ground arith

  update_of_facts :
      (config : ScoringConfig N) (row : ProxyRow N) (o : ValidationOutcome N)
      (options : PlanOptions N)
      → let u = update_of N config row o options in
        (u.reachable ≡ o.reachable)
        × (u.status ≡ (decide N config row o.reachable (score_of N config row o options)).status)
  unfolding update_of
  update_of_facts config row o options = (refl, refl)

  plan_one-Counts :
      (config : ScoringConfig N) (options : PlanOptions N) (found : Option (ProxyRow N))
      (o : ValidationOutcome N) (p : ValidationPlan N)
      → Counts p
      → Counts (plan_one N config options found o p)
  unfolding plan_one
  plan_one-Counts config options none o p c = c
  plan_one-Counts config options (some row) o p c =
      let u = update_of N config row o options in
      let d = decide_counts config row o.reachable (score_of N config row o options) in
      let (er, es) = update_of_facts config row o options in
      let ea : is_active u.status
          ≡ is_active (decide N config row o.reachable (score_of N config row o options)).status =
        ap is_active es in
      let eq : is_quarantined u.status
          ≡ is_quarantined
              (decide N config row o.reachable (score_of N config row o options)).status =
        ap is_quarantined es in
      let l = length-append p.updates (u ∷ []) in
      let r = tally_of-append reached p.updates (u ∷ []) in
      let a = tally_of-append made_active p.updates (u ∷ []) in
      let q = tally_of-append made_quarantined p.updates (u ∷ []) in
      record {
        checked = omega (arith, c.checked);
        both = ground (arith, c.both);
        passes = rw r (rw er (ground (arith, c.passes)));
        members = rw a (rw ea (ground (arith, c.members)));
        removed = rw q (rw eq (ground (arith, c.removed)));
      }

  plan_loop-Counts :
      (config : ScoringConfig N) (options : PlanOptions N) (rows : List (ProxyRow N))
      (os : List (ValidatedOutcome N)) (p : ValidationPlan N)
      → Counts p
      → Counts (plan_loop N config options rows os p)
  unfolding plan_loop
  plan_loop-Counts config options rows [] p c = c
  plan_loop-Counts config options rows (o ∷ os) p c =
      plan_loop-Counts config options rows os _
        (plan_one-Counts config options (by_id N o.proxy_id rows) o.outcome p c)

  -- In every plan, the tallies agree with the updates: one check for each update, each a pass or a
  -- failure, `added` and `retained` together the updates that end active, and `quarantined` those
  -- that end quarantined.
  pub plan_validation-Counts :
      (w : WorkerConfig N) (rows : List (ProxyRow N)) (outcomes : List (ValidatedOutcome N))
      (options : PlanOptions N)
      → Counts (plan_validation N w rows outcomes options)
  unfolding plan_validation
  plan_validation-Counts w rows outcomes options =
      plan_loop-Counts (scoring_of N w) options rows outcomes _ (record {
        checked = refl;
        both = omega arith;
        passes = refl;
        members = omega arith;
        removed = refl;
      })
