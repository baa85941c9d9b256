-- ===== src/Crunchyroll/Checker/Running/Parts.antt =====
-- What the parts of a check do to the budget and to the tokens.
use proxy_pulse_crunchyroll.Prelude.{
  ℕ, zero, suc, ◌+◌, ◌<◌, ◌≤◌, ◌≡◌, refl, sym, ap, ◌⊎◌, inl, inr, Bool, true, false, not, List, [],
  ◌∷◌, Option, none, some, arith, leb, if◌then◌else◌, if-cases, Option-cases, is_some, some-eq,
  length,
}
use proxy_pulse_crunchyroll.Text.{Text}
use proxy_pulse_crunchyroll.Numbers.{Number}
use proxy_pulse_crunchyroll.Robots.{RobotsFetch}
use proxy_pulse_crunchyroll.Concurrency.TokenBucket.{TokenBucket, try_take}
use proxy_pulse_crunchyroll.Crunchyroll.Rules.{ProxyResponse}
use proxy_pulse_crunchyroll.Crunchyroll.Checker.{
  CrunchyrollChecker, RobotsState, CheckReason, Phase, known, fetching, waiting, requesting, Next,
  ends, awaits, skip, is_fresh, ask_robots, admit, enter, follow_robots, load_robots, launch,
  cool_down, outcome_of, backoff, finish_check,
}
use proxy_pulse_crunchyroll.Crunchyroll.Checker.Running.{Run, pick, is_request}
use proxy_pulse_crunchyroll.Crunchyroll.Scorer.Breaker.{is_open}

leb-false→lt : (a b : ℕ) → leb a b ≡ false → b < a
leb-false→lt a b h = ground arith

module _ (N : Number) where
  -- The requests that a check in flight may still make.
  abbrev pub owed : Phase N → ℕ
  owed (known state) = 1
  owed fetching = 1
  owed waiting = 1
  owed requesting = 0

  abbrev pub owed_all : List (Phase N) → ℕ
  owed_all [] = 0
  owed_all (p ∷ ps) = owed p + owed_all ps

  abbrev pub owed_next : Next N → ℕ
  owed_next (ends result) = 0
  owed_next (awaits phase) = owed phase

  abbrev pub made_next : Next N → ℕ
  made_next (ends result) = 0
  made_next (awaits phase) = if is_request N phase then 1 else 0

  abbrev pub stays : Next N → ℕ
  stays (ends result) = 0
  stays (awaits phase) = 1

  -- A part that runs after the guards, and may make the `due` requests that its check still owes.
  pub record Resumed (due : ℕ) (c : CrunchyrollChecker N) (o : CrunchyrollChecker N × Next N)
      : Type 0 where
    pub config : o.0.config ≡ c.config
    pub bucket : o.0.bucket ≡ c.bucket
    pub checks : o.0.checks_this_cycle ≡ c.checks_this_cycle + made_next o.1
    pub owes : made_next o.1 + owed_next o.1 ≤ due

  skip-Resumed :
      (due : ℕ) (reason : CheckReason) (c : CrunchyrollChecker N) → Resumed due c (skip N reason c)
  skip-Resumed due reason c = record {
    config = refl;
    bucket = refl;
    checks = omega arith;
    owes = omega arith;
  }

  pub launch-Resumed : (now : ℕ) (c : CrunchyrollChecker N) → Resumed 1 c (launch N now c)
  launch-Resumed now c = record {
    config = refl;
    bucket = refl;
    checks = omega arith;
    owes = omega arith;
  }

  pub follow_robots-Resumed :
      (now : ℕ) (state : RobotsState N) (c : CrunchyrollChecker N)
      → Resumed 1 c (follow_robots N now state c)
  unfolding follow_robots
  follow_robots-Resumed now state c =
      if-cases (Resumed 1 c) (not state.allowed) _ _
        (λ refused. skip-Resumed 1 (CheckReason.robots_disallowed state.reason) c)
        (λ allowed.
          if-cases (Resumed 1 c) _ _ _
            (λ early. record {
              config = refl;
              bucket = refl;
              checks = omega arith;
              owes = omega arith;
            })
            (λ late. launch-Resumed now c))

  module _ (finite_number : Text → Option N.Num) (date_parse : Text → Option N.Num) where
    abbrev pub loaded :
        ℕ → RobotsFetch → CrunchyrollChecker N → CrunchyrollChecker N × RobotsState N
    loaded now fetched c = load_robots N finite_number date_parse now fetched c

    pub load_robots-follows :
        (now : ℕ) (fetched : RobotsFetch) (c : CrunchyrollChecker N)
        → Resumed 1 c (follow_robots N now (loaded now fetched c).1 (loaded now fetched c).0)
    unfolding load_robots
    load_robots-follows now fetched c =
        let f = follow_robots-Resumed now (loaded now fetched c).1 (loaded now fetched c).0 in
        record { config = f.config; bucket = f.bucket; checks = f.checks; owes = f.owes }

    cooled :
        (now : ℕ) (ms : Option N.Num) (c : CrunchyrollChecker N)
        → let d = cool_down N finite_number date_parse now ms c in
          (d.config ≡ c.config)
          × (d.bucket ≡ c.bucket)
          × (d.checks_this_cycle ≡ c.checks_this_cycle)
    cooled now none c = (refl, refl, refl)
    cooled now (some ms) c =
        if-cases
          (λ (d : CrunchyrollChecker N).
            (d.config ≡ c.config)
            × (d.bucket ≡ c.bucket)
            × (d.checks_this_cycle ≡ c.checks_this_cycle))
          _ _ _ (λ h. (refl, refl, refl)) (λ h. (refl, refl, refl))

    pub finish_check-Resumed :
        (now : ℕ) (response : Option ProxyResponse) (c : CrunchyrollChecker N)
        → Resumed 0 c (finish_check N finite_number date_parse now response c)
    unfolding finish_check
    finish_check-Resumed now none c = record {
      config = refl;
      bucket = refl;
      checks = omega arith;
      owes = omega arith;
    }
    finish_check-Resumed now (some response) c =
        let outcome = outcome_of N finite_number date_parse now response c in
        let (same_config, same_bucket, same_checks) =
          cooled now (backoff N finite_number date_parse now response outcome) _ in
        record {
          config = same_config;
          bucket = same_bucket;
          checks = omega (arith, same_checks);
          owes = omega arith;
        }

  -- The guards: what is let in is within the budget, and has a token.
  pub data Entered (now : ℕ) (c : CrunchyrollChecker N) (o : CrunchyrollChecker N × Next N)
      : Type 0 where
    refused :
        o.0.config ≡ c.config
        → o.0.checks_this_cycle ≡ c.checks_this_cycle
        → (o.0.bucket ≡ c.bucket) ⊎ (o.0.bucket ≡ (try_take now 1 c.bucket).0)
        → made_next o.1 + owed_next o.1 ≡ 0
        → stays o.1 ≡ 0
        → Entered now c o
    admitted :
        o.0.config ≡ c.config
        → o.0.checks_this_cycle ≡ c.checks_this_cycle
        → c.checks_this_cycle < c.config.max_checks_per_cycle
        → (try_take now 1 c.bucket).1 ≡ true
        → o.0.bucket ≡ (try_take now 1 c.bucket).0
        → made_next o.1 ≡ 0
        → owed_next o.1 ≡ 1
        → Entered now c o

  skip-Entered :
      (now : ℕ) (c : CrunchyrollChecker N) (reason : CheckReason) → Entered now c (skip N reason c)
  skip-Entered now c reason = refused refl refl (inl refl) (omega arith) refl

  ask_robots-Entered :
      (now : ℕ) (c d : CrunchyrollChecker N)
      → d.config ≡ c.config
      → d.checks_this_cycle ≡ c.checks_this_cycle
      → c.checks_this_cycle < c.config.max_checks_per_cycle
      → (try_take now 1 c.bucket).1 ≡ true
      → d.bucket ≡ (try_take now 1 c.bucket).0
      → Entered now c (ask_robots N now d)
  unfolding ask_robots
  ask_robots-Entered now c d same_config same_checks room token same_bucket =
      if-cases (Entered now c) (is_fresh N now d d.robots) _ _ (λ fresh. known_or_not d.robots)
        (λ stale.
          if-cases (Entered now c) (not d.config.respect_robots) _ _
            (λ off. admitted same_config same_checks room token same_bucket refl refl)
            (λ on. admitted same_config same_checks room token same_bucket refl refl))
    where
      known_or_not :
          (o : Option (RobotsState N))
          → Entered now c (d, awaits (elim o [ none ↦ fetching | some state ↦ known state ]))
      known_or_not none = admitted same_config same_checks room token same_bucket refl refl
      known_or_not (some state) = admitted same_config same_checks room token same_bucket refl refl

  admit-Entered :
      (now : ℕ) (c : CrunchyrollChecker N) (t : TokenBucket × Bool)
      → t ≡ try_take now 1 c.bucket
      → c.checks_this_cycle < c.config.max_checks_per_cycle
      → Entered now c (admit N now c t)
  admit-Entered now c (bucket, false) e room =
      refused refl refl (inr (ap (λ p. p.0) e)) (omega arith) refl
  admit-Entered now c (bucket, true) e room =
      ask_robots-Entered now c (record c { bucket = bucket }) refl refl room (ap (λ p. p.1) (sym e))
        (ap (λ p. p.0) e)

  pub enter-Entered : (now : ℕ) (c : CrunchyrollChecker N) → Entered now c (enter N now c)
  unfolding enter ask_robots
  enter-Entered now c =
      let skips : (reason : CheckReason) → Entered now c (skip N reason c) = skip-Entered now c in
      if-cases (Entered now c) (not c.config.enabled) _ _
        (λ h. skips CheckReason.service_checks_disabled)
        (λ enabled.
          if-cases (Entered now c) (not (is_some c.config.path)) _ _
            (λ h. skips CheckReason.invalid_probe_url)
            (λ valid.
              if-cases (Entered now c) (N.lt (N.ratio now 1) c.cooldown_until) _ _
                (λ h. skips CheckReason.rate_cooldown)
                (λ cool.
                  if-cases (Entered now c) (is_open c.breaker now) _ _
                    (λ h. skips CheckReason.circuit_open)
                    (λ closed.
                      if-cases (Entered now c)
                        (leb c.config.max_checks_per_cycle c.checks_this_cycle) _ _
                        (λ h. skips CheckReason.cycle_budget_exhausted)
                        (λ room.
                          admit-Entered now c (try_take now 1 c.bucket) refl
                            (leb-false→lt _ _ room))))))

  -- What is picked of the checks in flight: one of them, and the others.
  abbrev pub Picked : Run N → Option (Phase N × List (Phase N)) → Type 0
  Picked r none = Unit
  Picked r (some (p, others)) =
      (length r.flight ≡ 1 + length others) × (owed_all r.flight ≡ owed p + owed_all others)

  pick_facts :
      (i : ℕ) (ps : List (Phase N)) (p : Phase N) (qs : List (Phase N))
      → pick N i ps ≡ some (p, qs)
      → (length ps ≡ 1 + length qs) × (owed_all ps ≡ owed p + owed_all qs)
  pick_facts i [] p qs h = absurd (cc)
  pick_facts zero (q ∷ ps) p qs h =
      let e = some-eq h in
      (
        omega (arith, ap (λ x. length x.1) e),
        omega (arith, ap (λ x. owed x.0) e, ap (λ x. owed_all x.1) e),
      )
  pick_facts (suc i) (q ∷ ps) p qs h = elim (Option-cases (pick N i ps)) [
    | inl nothing ↦ absurd (cc (rw nothing at h))
    | inr ((found, rest), e) ↦
        let f = pick_facts i ps found rest e in
        let g = some-eq (rw e at h) in
        (
          omega (arith, f, ap (λ x. length x.1) g),
          omega (arith, f, ap (λ x. owed x.0) g, ap (λ x. owed_all x.1) g),
        )
  ]

  pub pick-Picked : (i : ℕ) (r : Run N) → Picked r (pick N i r.flight)
  pick-Picked i r = elim (Option-cases (pick N i r.flight)) [
    | inl nothing ↦ rw nothing tt
    | inr ((p, others), e) ↦ rw e (pick_facts i r.flight p others e)
  ]
