-- ===== src/Crunchyroll/Checker/Running/Alone.antt =====
-- services/crunchyroll/src/checker.ts: a check with no other in flight, from its call to its request.
use proxy_pulse_crunchyroll.Prelude.{
  ℕ, ◌+◌, ◌-◌, ◌*◌, ◌<◌, ◌≤◌, ◌≡◌, refl, ap, ◌∙◌, inl, inr, Bool, true, false, not, [], Option,
  none, some, arith, ltb, leb, ◌==◌, if◌then◌else◌, Bool-cases, is_some, or_default,
}
use proxy_pulse_crunchyroll.Text.{Text}
use proxy_pulse_crunchyroll.Numbers.{Number}
use proxy_pulse_crunchyroll.Concurrency.TokenBucket.{TokenBucket, refill, try_take}
use proxy_pulse_crunchyroll.Robots.{RobotsFetch, evaluate_robots}
use proxy_pulse_crunchyroll.Crunchyroll.Scorer.Breaker.{is_open}
use proxy_pulse_crunchyroll.Crunchyroll.Checker.{
  CrunchyrollChecker, RobotsState, Next, ends, awaits, known, fetching, is_fresh, ask_robots, admit,
  enter, follow_robots, load_robots,
}
use proxy_pulse_crunchyroll.Crunchyroll.Checker.Guards.{is_let_in}
use proxy_pulse_crunchyroll.Crunchyroll.Checker.Running.{
  robots_came, woke, Run, go_on, pick, after_pause, step,
}

-- A token is there, with those refilled since the last time.
pub token_there :
    (now : ℕ) (b : TokenBucket)
    → 0 < b.capacity
    → (try_take now 1 b).1 ≡ leb b.unit (b.tokens + (now - b.last_refill) * b.rate)
unfolding try_take refill
token_there now b h =
    let r = refill now b in
    let granted : (try_take now 1 b).1 ≡ leb (1 * r.unit) r.tokens =
      elim (Bool-cases (leb (1 * r.unit) r.tokens)) [
        | inl yet ↦ rw yet refl
        | inr short ↦ rw short refl
      ] in
    let one_fits : b.unit ≤ b.capacity * b.unit = grind arith in
    granted ∙ (elim (Bool-cases (now - b.last_refill == 0)) [
      | inl same ↦ rw same (ground arith)
      | inr later ↦ rw later (ground arith)
    ])

if-false {ℓ} : {A : Type ℓ} (b : Bool) (x y : A) → b ≡ false → (if b then x else y) ≡ y
if-false true x y h = cc
if-false false x y h = refl

module _ (N : Number) where
  open N use {Num, ratio, lt}

  -- No rule of the checker itself keeps it from a request.
  pub record MayAsk (now : ℕ) (c : CrunchyrollChecker N) : Type 0 where
    pub enabled : c.config.enabled ≡ true
    pub probes : is_some c.config.path ≡ true
    pub cooled : lt (ratio now 1) c.cooldown_until ≡ false
    pub closed : c.breaker.open_until ≤ now
    pub in_budget : c.checks_this_cycle < c.config.max_checks_per_cycle
    pub token : c.bucket.unit ≤ c.bucket.tokens + (now - c.bucket.last_refill) * c.bucket.rate

  -- Nothing is known of robots.txt, or not since the time to live of the cache.
  abbrev pub IsStale : ℕ → ℕ → Option (RobotsState N) → Type 0
  IsStale now ttl none = Unit {0}
  IsStale now ttl (some state) = ttl ≤ now - state.fetched_at

  -- A checker with nothing in flight.
  abbrev pub idle : CrunchyrollChecker N → Run N
  idle c = record { checker = c; flight = []; launched = 0; results = [] }

  module _ (finite_number : Text → Option Num) (date_parse : Text → Option Num) where
    -- What is known of robots.txt, or the answer to its request, allows the probe, or it is not asked for.
    pub data RobotsAllow (now : ℕ) (c : CrunchyrollChecker N) (fetched : RobotsFetch) : Type 0 where
      remembered :
          (state : RobotsState N)
          → c.robots ≡ some state
          → now - state.fetched_at < c.config.robots_cache_ttl_ms
          → state.allowed ≡ true
          → RobotsAllow now c fetched
      ignored :
          IsStale now c.config.robots_cache_ttl_ms c.robots
          → c.config.respect_robots ≡ false
          → RobotsAllow now c fetched
      asked :
          IsStale now c.config.robots_cache_ttl_ms c.robots
          → c.config.respect_robots ≡ true
          → (evaluate_robots finite_number
              (or_default c.config.path [])
              c.config.user_agent
              fetched).allowed
            ≡ true
          → RobotsAllow now c fetched

    unfoldable pub after_enter : ℕ → ℕ → RobotsFetch → Run N → Run N
    unfolding step
    after_enter later latest fetched r =
        step N finite_number date_parse
          (step N finite_number date_parse r (robots_came 0 later fetched)) (woke 0 latest)

    pub refused-launched :
        (later latest : ℕ) (fetched : RobotsFetch) (c : CrunchyrollChecker N)
        (o : CrunchyrollChecker N × Next N)
        → is_let_in N o.1 ≡ false
        → (after_enter later latest fetched (go_on N (idle c) [] o)).launched ≡ 0
    unfolding after_enter step
    refused-launched later latest fetched c (c', ends result) h = refl
    refused-launched later latest fetched c (c', awaits phase) h = cc

    follow-launched :
        (later latest : ℕ) (state : RobotsState N) (c : CrunchyrollChecker N) (r : Run N)
        → r.launched ≡ 0
        → let s = go_on N r [] (follow_robots N later state c) in
          (after_pause N finite_number date_parse latest s (pick N 0 s.flight)).launched
          ≡ (if state.allowed then 1 else 0)
    unfolding follow_robots
    follow-launched later latest state c r h = elim (Bool-cases state.allowed) [
      | inr forbidden ↦ rw forbidden h
      | inl allowed ↦ elim (Bool-cases (lt (ratio (later - c.last_request_at) 1) c.spacing_ms)) [
        | inl early ↦ rw (allowed, early) (omega arith)
        | inr late ↦ rw (allowed, late) (omega arith)
      ]
    ]

    -- Whether robots.txt allows the probe.
    unfoldable pub robots_allow :
        ℕ → CrunchyrollChecker N → RobotsFetch → Option (RobotsState N) → Bool
    robots_allow now c fetched robots =
        let answer =
          (evaluate_robots finite_number (or_default c.config.path []) c.config.user_agent
            fetched).allowed in
        let unknown = if c.config.respect_robots then answer else true in
        elim robots [
          | none ↦ unknown
          | some state ↦
              if ltb (now - state.fetched_at) c.config.robots_cache_ttl_ms
              then state.allowed
              else unknown
        ]

    unknown-launched :
        (now later latest : ℕ) (fetched : RobotsFetch) (c start : CrunchyrollChecker N)
        → is_fresh N now c c.robots ≡ false
        → (after_enter later latest fetched (go_on N (idle start) [] (ask_robots N now c))).launched
          ≡ (if (if c.config.respect_robots
                then (evaluate_robots finite_number
                    (or_default c.config.path [])
                    c.config.user_agent
                    fetched).allowed
                else true)
              then 1
              else 0)
    unfolding after_enter step ask_robots load_robots
    unknown-launched now later latest fetched c start stale =
        elim (Bool-cases c.config.respect_robots) [
          | inl on ↦
              rw (stale, on)
                (follow-launched later latest _ _ (record (idle start) { checker = c }) refl)
          | inr off ↦
              rw (stale, off)
                (follow-launched later latest _ _ (record (idle start) { checker = c }) refl)
        ]

    ask_robots-known :
        (now : ℕ) (c : CrunchyrollChecker N) (state : RobotsState N)
        → is_fresh N now c c.robots ≡ true
        → c.robots ≡ some state
        → ask_robots N now c ≡ (c, awaits (known state))
    unfolding ask_robots
    ask_robots-known now c state fresh e =
        rw fresh (ap (λ o. (c, awaits (elim o [ none ↦ fetching | some s ↦ known s ]))) e)

    known-launched :
        (later latest : ℕ) (fetched : RobotsFetch) (c start : CrunchyrollChecker N)
        (state : RobotsState N)
        → (after_enter later latest fetched
            (go_on N (idle start) [] (c, awaits (known state)))).launched
          ≡ (if state.allowed then 1 else 0)
    unfolding after_enter step
    known-launched later latest fetched c start state =
        follow-launched later latest state c (go_on N (idle start) [] (c, awaits (known state)))
          refl

    ask-launched :
        (now later latest : ℕ) (fetched : RobotsFetch) (c start : CrunchyrollChecker N)
        (robots : Option (RobotsState N))
        → c.robots ≡ robots
        → (after_enter later latest fetched (go_on N (idle start) [] (ask_robots N now c))).launched
          ≡ (if robots_allow now c fetched robots then 1 else 0)
    unfolding robots_allow
    ask-launched now later latest fetched c start none e =
        unknown-launched now later latest fetched c start (rw e refl)
    ask-launched now later latest fetched c start (some state) e =
        elim (Bool-cases (ltb (now - state.fetched_at) c.config.robots_cache_ttl_ms)) [
          | inr old ↦ rw old (unknown-launched now later latest fetched c start (rw e old))
          | inl fresh ↦
              rw (fresh, ask_robots-known now c state (rw e fresh) e)
                (known-launched later latest fetched c start state)
        ]

    admit-launched :
        (now later latest : ℕ) (fetched : RobotsFetch) (c : CrunchyrollChecker N)
        (t : TokenBucket × Bool)
        → t.1 ≡ true
        → (after_enter later latest fetched (go_on N (idle c) [] (admit N now c t))).launched
          ≡ (if robots_allow now c fetched c.robots then 1 else 0)
    unfolding robots_allow
    admit-launched now later latest fetched c (bucket, false) h = cc
    admit-launched now later latest fetched c (bucket, true) h =
        ask-launched now later latest fetched (record c { bucket = bucket }) c c.robots refl

    -- The tests of the checker itself, and those of robots.txt.
    pub enter-launched :
        (now later latest : ℕ) (fetched : RobotsFetch) (c : CrunchyrollChecker N)
        → MayAsk now c
        → 0 < c.bucket.capacity
        → (after_enter later latest fetched (go_on N (idle c) [] (enter N now c))).launched
          ≡ (if robots_allow now c fetched c.robots then 1 else 0)
    unfolding enter is_open
    enter-launched now later latest fetched c may some_fit =
        let shut : ltb now c.breaker.open_until ≡ false = let h = may.closed in ground arith in
        let budget : leb c.config.max_checks_per_cycle c.checks_this_cycle ≡ false =
          let h = may.in_budget in ground arith in
        let token : (try_take now 1 c.bucket).1 ≡ true =
          token_there now c.bucket some_fit ∙ (let h = may.token in ground arith) in
        let admitted : enter N now c ≡ admit N now c (try_take now 1 c.bucket) =
          if-false (not c.config.enabled) _ _ (ap not may.enabled)
          ∙ (if-false (not (is_some c.config.path)) _ _ (ap not may.probes)
              ∙ (if-false (lt (ratio now 1) c.cooldown_until) _ _ may.cooled
                  ∙ (if-false (ltb now c.breaker.open_until) _ _ shut
                      ∙ if-false (leb c.config.max_checks_per_cycle c.checks_this_cycle) _ _
                          budget))) in
        ap (λ o. (after_enter later latest fetched (go_on N (idle c) [] o)).launched) admitted
        ∙ admit-launched now later latest fetched c (try_take now 1 c.bucket) token
