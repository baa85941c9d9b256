-- ===== src/Crunchyroll/Checker/Running/Deciding.antt =====
-- When a check with no other in flight makes its request.
use proxy_pulse_crunchyroll.Prelude.{
  ℕ, ◌+◌, ◌-◌, ◌*◌, ◌<◌, ◌≤◌, ◌≡◌, refl, ap, ◌∙◌, sym, ◌↔◌, inl, inr, Bool, true, false, not, ◌&&◌,
  [], ◌∷◌, Option, none, some, arith, ltb, leb, if◌then◌else◌, Bool-cases, or_default, leb→le,
}
use proxy_pulse_crunchyroll.Text.{Text}
use proxy_pulse_crunchyroll.Numbers.{Number}
use proxy_pulse_crunchyroll.Robots.{RobotsFetch, evaluate_robots}
use proxy_pulse_crunchyroll.Crunchyroll.Scorer.Breaker.{is_open}
use proxy_pulse_crunchyroll.Crunchyroll.Checker.{CrunchyrollChecker, RobotsState, enter}
use proxy_pulse_crunchyroll.Crunchyroll.Checker.Guards.{is_let_in, enter-lets_in}
use proxy_pulse_crunchyroll.Crunchyroll.Checker.Running.{
  called, robots_came, woke, step, run_events,
}
use proxy_pulse_crunchyroll.Crunchyroll.Checker.Running.Alone.{
  token_there, MayAsk, IsStale, RobotsAllow, remembered, ignored, asked, idle, after_enter,
  robots_allow, refused-launched, enter-launched,
}

one_made : (b : Bool) (n : ℕ) → n ≡ (if b then 1 else 0) → n ≡ 1 → b ≡ true
one_made b n h k = ground arith

zero_ne_one : {n : ℕ} → n ≡ 0 → n ≡ 1 → ⊥
zero_ne_one h k = omega arith

not_before : (a b : ℕ) → ltb a b ≡ false → b ≤ a
not_before a b h = ground arith

not_over : (a b : ℕ) → leb a b ≡ false → b < a
not_over a b h = ground arith

all_passed :
    (a b c d e f : Bool)
    → (not (not a) && (not (not b) && (not c && (not d && (not e && f))))) ≡ true
    → (a ≡ true) × (b ≡ true) × (c ≡ false) × (d ≡ false) × (e ≡ false) × (f ≡ true)
all_passed a b c d e f h = ground arith

module _ (N : Number) (finite_number : Text → Option N.Num) (date_parse : Text → Option N.Num) where
  may_ask :
      (now : ℕ) (c : CrunchyrollChecker N)
      → 0 < c.bucket.capacity
      → is_let_in N (enter N now c).1 ≡ true
      → MayAsk N now c
  unfolding is_open
  may_ask now c some_fit h =
      let (a, b, d, e, f, g) = all_passed _ _ _ _ _ _ (sym (enter-lets_in N now c) ∙ h) in
      let t : leb c.bucket.unit (c.bucket.tokens + (now - c.bucket.last_refill) * c.bucket.rate)
          ≡ true =
        sym (token_there now c.bucket some_fit) ∙ g in
      record {
        enabled = a;
        probes = b;
        cooled = d;
        closed = not_before now c.breaker.open_until e;
        in_budget = not_over c.config.max_checks_per_cycle c.checks_this_cycle f;
        token = leb→le _ _ t;
      }

  robots_allow→RobotsAllow :
      (now : ℕ) (c : CrunchyrollChecker N) (fetched : RobotsFetch) (robots : Option (RobotsState N))
      → c.robots ≡ robots
      → robots_allow N finite_number date_parse now c fetched robots ≡ true
      → RobotsAllow N finite_number date_parse now c fetched
  unfolding robots_allow
  robots_allow→RobotsAllow now c fetched none e h =
      let stale : IsStale N now c.config.robots_cache_ttl_ms c.robots = rw e tt in
      elim (Bool-cases c.config.respect_robots) [
        | inl on ↦ asked stale on (rw on at h)
        | inr off ↦ ignored stale off
      ]
  robots_allow→RobotsAllow now c fetched (some state) e h =
      elim (Bool-cases (ltb (now - state.fetched_at) c.config.robots_cache_ttl_ms)) [
        | inl fresh ↦ remembered state e (ground arith) (rw fresh at h)
        | inr old ↦
            let stale : IsStale N now c.config.robots_cache_ttl_ms c.robots = rw e (ground arith) in
            elim (Bool-cases c.config.respect_robots) [
              | inl on ↦ asked stale on (rw (old, on) at h)
              | inr off ↦ ignored stale off
            ]
      ]

  stale-allow :
      (now : ℕ) (c : CrunchyrollChecker N) (fetched : RobotsFetch) (robots : Option (RobotsState N))
      → IsStale N now c.config.robots_cache_ttl_ms robots
      → robots_allow N finite_number date_parse now c fetched robots ≡ (
          if c.config.respect_robots
          then (evaluate_robots finite_number
              (or_default c.config.path [])
              c.config.user_agent
              fetched).allowed
          else true)
  unfolding robots_allow
  stale-allow now c fetched none h = refl
  stale-allow now c fetched (some state) h =
      let old : ltb (now - state.fetched_at) c.config.robots_cache_ttl_ms ≡ false = ground arith in
      rw old refl

  RobotsAllow→robots_allow :
      (now : ℕ) (c : CrunchyrollChecker N) (fetched : RobotsFetch)
      → RobotsAllow N finite_number date_parse now c fetched
      → robots_allow N finite_number date_parse now c fetched c.robots ≡ true
  RobotsAllow→robots_allow now c fetched (remembered state e fresh yet) =
      let f : ltb (now - state.fetched_at) c.config.robots_cache_ttl_ms ≡ true = ground arith in
      ap (robots_allow N finite_number date_parse now c fetched) e ∙ unfold robots_allow in rw f yet
  RobotsAllow→robots_allow now c fetched (ignored stale off) =
      stale-allow now c fetched c.robots stale ∙ rw off refl
  RobotsAllow→robots_allow now c fetched (asked stale on yet) =
      stale-allow now c fetched c.robots stale ∙ rw on yet

  -- Where the bucket has room for a token: a check that is called with no other in flight, that gets its
  -- answer to robots.txt where it asks for it and waits for its turn, makes its request exactly when the
  -- checks are enabled, there is a probe URL, the cooldown is over, the circuit is closed, the budget of the
  -- cycle is not used up, a token is there with those refilled, and robots.txt allows the probe: by what is
  -- remembered of it, if that is fresh, else by the answer, unless robots.txt is not to be respected.
  pub run_events-launched_iff :
      (now later latest : ℕ) (fetched : RobotsFetch) (c : CrunchyrollChecker N)
      → 0 < c.bucket.capacity
      → ((run_events N finite_number date_parse
            (idle N c)
            (called now ∷ robots_came 0 later fetched ∷ woke 0 latest ∷ [])).launched
          ≡ 1)
        ↔ (MayAsk N now c × RobotsAllow N finite_number date_parse now c fetched)
  unfolding run_events step after_enter
  run_events-launched_iff now later latest fetched c some_fit = (
    λ one. (elim (Bool-cases (is_let_in N (enter N now c).1)) [
      | inr out ↦ absurd (
          zero_ne_one
            (refused-launched N finite_number date_parse later latest fetched c (enter N now c) out)
            one)
      | inl let_in ↦
          let may = may_ask now c some_fit let_in in
          let made =
            enter-launched N finite_number date_parse now later latest fetched c may some_fit in
          (
            may,
            robots_allow→RobotsAllow now c fetched c.robots refl (
                one_made (robots_allow N finite_number date_parse now c fetched c.robots) _ made
                  one),
          )
    ]),
    λ (may, robots).
        enter-launched N finite_number date_parse now later latest fetched c may some_fit
        ∙ rw (RobotsAllow→robots_allow now c fetched robots) refl,
  )
