-- ===== src/Crunchyroll/Checker/Guards.antt =====
-- When a check is let in, and how long the service is left alone.
use proxy_pulse_crunchyroll.Prelude.{
  ℕ, ◌≡◌, refl, ◌≢◌, Bool, true, false, not, ◌&&◌, Option, none, some, leb, if◌then◌else◌, if-cases,
  is_some,
}
use proxy_pulse_crunchyroll.Text.{Text}
use proxy_pulse_crunchyroll.Numbers.{Number}
use proxy_pulse_crunchyroll.Concurrency.TokenBucket.{TokenBucket, try_take}
use proxy_pulse_crunchyroll.Crunchyroll.Rules.{Verdict, blocked}
use proxy_pulse_crunchyroll.Crunchyroll.Scorer.Breaker.{is_open}
use proxy_pulse_crunchyroll.Crunchyroll.Checker.{
  CrunchyrollChecker, Next, ends, awaits, is_fresh, ask_robots, admit, enter,
}

module _ (N : Number) where
  open N use {Num, ratio, add, minimum, lt}

  abbrev pub is_let_in : Next N → Bool
  is_let_in (ends result) = false
  is_let_in (awaits phase) = true

  asks_on : (now : ℕ) (c : CrunchyrollChecker N) → is_let_in (ask_robots N now c).1 ≡ true
  unfolding ask_robots
  asks_on now c =
      if-cases (λ (o : CrunchyrollChecker N × Next N). is_let_in o.1 ≡ true)
        (is_fresh N now c c.robots) _ _ (λ fresh. refl)
        (λ stale.
          if-cases (λ (o : CrunchyrollChecker N × Next N). is_let_in o.1 ≡ true)
            (not c.config.respect_robots) _ _ (λ off. refl) (λ on. refl))

  admits :
      (now : ℕ) (c : CrunchyrollChecker N) (t : TokenBucket × Bool)
      → is_let_in (admit N now c t).1 ≡ t.1
  admits now c (bucket, true) = asks_on now (record c { bucket = bucket })
  admits now c (bucket, false) = refl

  guarded :
      (b : Bool) (x y : CrunchyrollChecker N × Next N) (rest : Bool)
      → is_let_in x.1 ≡ false
      → is_let_in y.1 ≡ rest
      → is_let_in (if b then x else y).1 ≡ (not b && rest)
  guarded true x y rest h k = h
  guarded false x y rest h k = k

  -- A check comes to its first await exactly when it passes all the tests of `enter`.
  pub enter-lets_in :
      (now : ℕ) (c : CrunchyrollChecker N)
      → is_let_in (enter N now c).1 ≡ (
          not (not c.config.enabled)
          && (not (not (is_some c.config.path))
              && (not (lt (ratio now 1) c.cooldown_until)
                  && (not (is_open c.breaker now)
                      && (not (leb c.config.max_checks_per_cycle c.checks_this_cycle)
                          && (try_take now 1 c.bucket).1)))))
  unfolding enter
  enter-lets_in now c = guarded (not c.config.enabled) _ _ _ refl (
      guarded (not (is_some c.config.path)) _ _ _ refl (
        guarded (lt (ratio now 1) c.cooldown_until) _ _ _ refl (
          guarded (is_open c.breaker now) _ _ _ refl (
            guarded (leb c.config.max_checks_per_cycle c.checks_this_cycle) _ _ _ refl
              (admits now c (try_take now 1 c.bucket))))))

  -- The time until which the service is left alone, after a backoff.
  abbrev pub CoolsFor : ℕ → Option Num → Num → Num → Type 0
  CoolsFor now none before after = after ≡ before
  CoolsFor now (some ms) before after =
      after
      ≡ (if lt (ratio 0 1) ms then add (ratio now 1) (minimum ms (ratio 300000 1)) else before)

  -- The backoff after a response, from what its rules say, what its Retry-After header says, and the
  -- verdict: the first of the two that is given, and else a minute after a refusal.
  pub data Asks : Option Num → Option Num → Verdict → Option Num → Type 0 where
    by_rule :
        {header : Option Num} {verdict : Verdict} (ms : Num)
        → Asks (some ms) header verdict (some ms)
    by_header : {verdict : Verdict} (ms : Num) → Asks none (some ms) verdict (some ms)
    by_refusal : Asks none none blocked (some (ratio 60000 1))
    silent : {verdict : Verdict} → verdict ≢ blocked → Asks none none verdict none

  abbrev pub reported_backoff : Next N → Option Num
  reported_backoff (ends result) = result.retry_after_ms
  reported_backoff (awaits phase) = none
