-- ===== src/Crunchyroll/Checker.antt =====
-- services/crunchyroll/src/checker.ts: CrunchyrollChecker. Several checks may be in flight, so that a check
-- is cut at its awaits: each part is a function of the time at which it runs, and a run is a list of
-- events. The clock does not go back. What probeUrlOrError makes of the configuration is given, and so are the answers of the service.
pub mod Running
pub mod Guards
mod Tests
use proxy_pulse_crunchyroll.Prelude.{
  ℕ, ◌+◌, ◌-◌, min, max, Bool, true, false, not, [], Option, none, some, ltb, leb, ◌==◌,
  if◌then◌else◌, is_some, or_default,
}
use proxy_pulse_crunchyroll.Text.{Text, codes}
use proxy_pulse_crunchyroll.Numbers.{Number}
use proxy_pulse_crunchyroll.Types.{ServiceStatus}
use proxy_pulse_crunchyroll.Concurrency.TokenBucket.{TokenBucket, new_bucket, try_take}
use proxy_pulse_crunchyroll.Robots.{RobotsReason, RobotsFetch, evaluate_robots}
use proxy_pulse_crunchyroll.Crunchyroll.Rules.{
  Verdict, passed, failed, blocked, skipped, RuleReason, ProxyResponse, RuleOutcome,
  parse_retry_after_ms, evaluate_probed_response,
}
use proxy_pulse_crunchyroll.Crunchyroll.Scorer.{status_for_verdict}
use proxy_pulse_crunchyroll.Crunchyroll.Scorer.Breaker.{
  ServiceCircuitBreaker, new_breaker, is_open, record_result,
}

-- The part of the configuration that the checks read; `path` is that of the probe URL, if it is allowed.
pub record CheckConfig : Type 0 where
  pub enabled : Bool
  pub path : Option Text
  pub user_agent : Text
  pub rate_limit_per_minute : ℕ
  pub max_checks_per_cycle : ℕ
  pub min_request_spacing_ms : ℕ
  pub respect_robots : Bool
  pub robots_cache_ttl_ms : ℕ

pub data RobotsNote : Type 0 where
  robots_check_disabled : RobotsNote
  decided : RobotsReason → RobotsNote

pub data CheckReason : Type 0 where
  service_checks_disabled invalid_probe_url rate_cooldown circuit_open cycle_budget_exhausted
        rate_budget_exhausted :
      CheckReason
  robots_disallowed : RobotsNote → CheckReason
  requester_error : CheckReason
  ruled : Option RuleReason → CheckReason

pub record Totals : Type 0 where
  pub checks : ℕ
  pub passed : ℕ
  pub failed : ℕ
  pub blocked : ℕ
  pub skipped : ℕ

-- `totals[verdict] += 1`
abbrev pub count_verdict : Verdict → Totals → Totals
count_verdict passed t = record t { passed = t.passed + 1 }
count_verdict failed t = record t { failed = t.failed + 1 }
count_verdict blocked t = record t { blocked = t.blocked + 1 }
count_verdict skipped t = record t { skipped = t.skipped + 1 }

-- Whether the breaker counts a verdict as a success.
abbrev pub is_success : Verdict → Bool
is_success passed = true
is_success failed = false
is_success blocked = false
is_success skipped = true

module _ (N : Number) where
  open N use {Num, ratio, add, mul, minimum, maximum, lt}

  pub record RobotsState : Type 0 where
    pub fetched_at : ℕ
    pub checked : Bool
    pub allowed : Bool
    pub reason : RobotsNote
    pub crawl_delay_ms : Option Num

  pub record CrunchyrollChecker : Type 0 where
    pub config : CheckConfig
    pub bucket : TokenBucket
    pub breaker : ServiceCircuitBreaker
    pub robots : Option RobotsState
    pub last_request_at : ℕ
    pub spacing_ms : Num
    pub cooldown_until : Num
    pub cycle_id : Option Text
    pub checks_this_cycle : ℕ
    pub totals : Totals

  -- The details, the latency and the robots state of a result are left out.
  pub record CheckResult : Type 0 where
    pub verdict : Verdict
    pub status : ServiceStatus
    pub reason : CheckReason
    pub http_status : Option ℕ
    pub retry_after_ms : Option Num

  -- Where a check waits: for robots.txt that is known or is being fetched, for its turn, for the response.
  pub data Phase : Type 0 where
    known : RobotsState → Phase
    fetching waiting requesting : Phase

  -- A part of a check ends in a result or at the next await.
  pub data Next : Type 0 where
    ends : CheckResult → Next
    awaits : Phase → Next

  unfoldable pub new_checker : CheckConfig → ℕ → CrunchyrollChecker
  new_checker config now =
      let per_minute = max 1 config.rate_limit_per_minute in
      record {
        config = config;
        bucket = new_bucket (min 10 per_minute) 60000 per_minute now;
        breaker = new_breaker 25 120000;
        robots = none;
        last_request_at = 0;
        spacing_ms = ratio config.min_request_spacing_ms 1;
        cooldown_until = ratio 0 1;
        cycle_id = none;
        checks_this_cycle = 0;
        totals = record { checks = 0; passed = 0; failed = 0; blocked = 0; skipped = 0 };
      }

  unfoldable pub begin_cycle : Text → CrunchyrollChecker → CrunchyrollChecker
  begin_cycle cycle_id c = record c { cycle_id = some cycle_id; checks_this_cycle = 0 }

  -- `skipped`
  abbrev pub skip : CheckReason → CrunchyrollChecker → CrunchyrollChecker × Next
  skip reason c = (
    record c { totals = record c.totals { skipped = c.totals.skipped + 1 } },
    ends (record {
      verdict = skipped;
      status = ServiceStatus.skipped;
      reason = reason;
      http_status = none;
      retry_after_ms = none;
    }),
  )

  abbrev disabled_robots : ℕ → RobotsState
  disabled_robots now = record {
    fetched_at = now;
    checked = false;
    allowed = true;
    reason = robots_check_disabled;
    crawl_delay_ms = none;
  }

  abbrev pub is_fresh : ℕ → CrunchyrollChecker → Option RobotsState → Bool
  is_fresh now c none = false
  is_fresh now c (some state) = ltb (now - state.fetched_at) c.config.robots_cache_ttl_ms

  -- `ensureRobots` up to its first await.
  unfoldable pub ask_robots : ℕ → CrunchyrollChecker → CrunchyrollChecker × Next
  ask_robots now c =
      if is_fresh now c c.robots
      then (c, awaits (elim c.robots [ none ↦ fetching | some state ↦ known state ]))
      else if not c.config.respect_robots
      then (record c { robots = some (disabled_robots now) }, awaits (known (disabled_robots now)))
      else (c, awaits fetching)

  -- With the token that has been taken or not.
  abbrev pub admit : ℕ → CrunchyrollChecker → TokenBucket × Bool → CrunchyrollChecker × Next
  admit now c (bucket, false) = skip rate_budget_exhausted (record c { bucket = bucket })
  admit now c (bucket, true) = ask_robots now (record c { bucket = bucket })

  -- The guards of `check`, up to its first await.
  unfoldable pub enter : ℕ → CrunchyrollChecker → CrunchyrollChecker × Next
  unfolding ask_robots
  enter now c =
      if not c.config.enabled
      then skip service_checks_disabled c
      else if not (is_some c.config.path)
      then skip invalid_probe_url c
      else if lt (ratio now 1) c.cooldown_until
      then skip rate_cooldown c
      else if is_open c.breaker now
      then skip circuit_open c
      else if leb c.config.max_checks_per_cycle c.checks_this_cycle
      then skip cycle_budget_exhausted c
      else admit now c (try_take now 1 c.bucket)

  -- Just before the request.
  abbrev pub launch : ℕ → CrunchyrollChecker → CrunchyrollChecker × Next
  launch now c = (
    record c {
      last_request_at = now;
      checks_this_cycle = c.checks_this_cycle + 1;
      totals = record c.totals { checks = c.totals.checks + 1 };
    },
    awaits requesting,
  )

  -- What follows robots.txt, up to `sleep` or the request.
  unfoldable pub follow_robots : ℕ → RobotsState → CrunchyrollChecker → CrunchyrollChecker × Next
  follow_robots now state c =
      if not state.allowed
      then skip (robots_disallowed state.reason) c
      else if lt (ratio (now - c.last_request_at) 1) c.spacing_ms
      then (c, awaits waiting)
      else launch now c

  module _ (finite_number : Text → Option Num) (date_parse : Text → Option Num) where
    -- The rest of `ensureRobots`, with the answer to the fetch.
    unfoldable pub load_robots :
        ℕ → RobotsFetch → CrunchyrollChecker → CrunchyrollChecker × RobotsState
    load_robots now fetched c =
        let decision =
          evaluate_robots finite_number (or_default c.config.path []) c.config.user_agent fetched in
        let delay : Option Num = elim decision.crawl_delay_seconds [
          | none ↦ none
          | some seconds ↦ some (mul seconds (ratio 1000 1))
        ] in
        let state : RobotsState = record {
          fetched_at = now;
          checked = true;
          allowed = decision.allowed;
          reason = decided decision.reason;
          crawl_delay_ms = delay;
        } in
        (
          record c {
            robots = some state;
            spacing_ms =
                if decision.allowed
                then maximum (ratio c.config.min_request_spacing_ms 1)
                    (or_default delay (ratio 0 1))
                else c.spacing_ms;
          },
          state,
        )

    -- The response is of a request that robots.txt allows.
    abbrev pub outcome_of : ℕ → ProxyResponse → CrunchyrollChecker → RuleOutcome N
    outcome_of now response c =
        evaluate_probed_response N finite_number date_parse (ratio now 1) (record {
          response = response;
          check_path = or_default c.config.path [];
          robots_allowed = true;
          robots_reason = [];
        })

    -- `a ?? b`
    abbrev pub first_of : Option Num → Option Num → Option Num
    first_of (some a) b = some a
    first_of none b = b

    abbrev pub default_backoff : Verdict → Option Num
    default_backoff blocked = some (ratio 60000 1)
    default_backoff passed = none
    default_backoff failed = none
    default_backoff skipped = none

    abbrev pub backoff : ℕ → ProxyResponse → RuleOutcome N → Option Num
    backoff now response outcome = first_of outcome.retry_after_ms (
        first_of
          (parse_retry_after_ms N finite_number date_parse (ratio now 1)
            (response.headers (codes "retry-after")))
          (default_backoff outcome.verdict))

    abbrev pub cool_down : ℕ → Option Num → CrunchyrollChecker → CrunchyrollChecker
    cool_down now none c = c
    cool_down now (some ms) c =
        if lt (ratio 0 1) ms
        then record c { cooldown_until = add (ratio now 1) (minimum ms (ratio 300000 1)) }
        else c

    abbrev pub settle_response :
        ℕ → ProxyResponse → RuleOutcome N → CrunchyrollChecker → CrunchyrollChecker × Next
    settle_response now response outcome c =
        let retry_after_ms = backoff now response outcome in
        (
          cool_down now retry_after_ms (record c {
            breaker = record_result c.breaker (is_success outcome.verdict) now;
            totals = count_verdict outcome.verdict c.totals;
          }),
          ends (record {
            verdict = outcome.verdict;
            status = status_for_verdict outcome.verdict;
            reason = ruled outcome.reason;
            http_status = if response.status == 0 then none else some response.status;
            retry_after_ms = retry_after_ms;
          }),
        )

    -- The rest of `check`; `none` is a request that throws.
    unfoldable pub finish_check :
        ℕ → Option ProxyResponse → CrunchyrollChecker → CrunchyrollChecker × Next
    finish_check now none c = (
      record c { breaker = record_result c.breaker false now },
      ends (record {
        verdict = failed;
        status = ServiceStatus.failed;
        reason = requester_error;
        http_status = none;
        retry_after_ms = none;
      }),
    )
    finish_check now (some response) c = settle_response now response (outcome_of now response c) c
