-- ===== src/Crunchyroll/Checker/Tests.antt =====
-- Runs of the checker, and its theorems at concrete inputs.
use proxy_pulse_crunchyroll.Prelude.{
  ℕ, ◌+◌, ◌-◌, ◌*◌, ◌<◌, ◌≤◌, min, max, ◌≡◌, refl, ◌↔◌, true, false, List, [], ◌∷◌, Option, none,
  some, arith,
}
use proxy_pulse_crunchyroll.Text.{Text, codes}
use proxy_pulse_crunchyroll.Numbers.Thousandths.{thousandths}
use proxy_pulse_crunchyroll.Concurrency.TokenBucket.{try_take, new_bucket, refill}
use proxy_pulse_crunchyroll.Crunchyroll.Rules.{ProxyResponse}
use proxy_pulse_crunchyroll.Crunchyroll.Scorer.Breaker.{is_open, new_breaker}
use proxy_pulse_crunchyroll.Crunchyroll.Checker.{
  CheckConfig, CrunchyrollChecker, new_checker, enter, ask_robots, follow_robots,
}
use proxy_pulse_crunchyroll.Crunchyroll.Checker.Running.{
  Event, called, woke, robots_came, start_run, run_events,
}
use proxy_pulse_crunchyroll.Crunchyroll.Checker.Running.Alone.{MayAsk, RobotsAllow, idle}
use proxy_pulse_crunchyroll.Crunchyroll.Checker.Running.Deciding.{run_events-launched_iff}
use proxy_pulse_crunchyroll.Crunchyroll.Checker.Running.Budget.{run_events_budget}
use proxy_pulse_crunchyroll.Crunchyroll.Checker.Running.Rate.{run_events_rate}
use proxy_pulse_crunchyroll.Robots.{RobotsFetch}

abbrev no_number : Text → Option ℕ
no_number s = none

-- One check a cycle, without robots.txt.
abbrev config : CheckConfig
config = record {
  enabled = true;
  path = some (codes "/robots.txt");
  user_agent = codes "bot";
  rate_limit_per_minute = 30;
  max_checks_per_cycle = 1;
  min_request_spacing_ms = 250;
  respect_robots = false;
  robots_cache_ttl_ms = 1000;
}

-- Two checks that are called before either of them is counted.
abbrev together : List Event
together =
    called 1000
    ∷ called 1000
    ∷ robots_came 0 1000 RobotsFetch.fetch_error
    ∷ robots_came 1 1000 RobotsFetch.fetch_error
    ∷ woke 0 1250
    ∷ []

-- Both of them are made, in a cycle of one.
two_checks :
    (run_events thousandths no_number no_number
      (start_run thousandths config 1000)
      together).checker.checks_this_cycle
    ≡ 2
unfolding run_events enter ask_robots follow_robots new_checker try_take new_bucket is_open
    new_breaker refill
two_checks = refl

run_events_budget_example :
    let r =
      run_events thousandths no_number no_number
        (start_run thousandths config 1000)
        (called 1000 ∷ []) in
    r.checker.checks_this_cycle < 1 + 2
run_events_budget_example =
    run_events_budget thousandths config 2 (omega arith) no_number no_number 1000 (called 1000 ∷ [])
      (omega arith, tt)

run_events_rate_example :
    (run_events thousandths no_number no_number
        (start_run thousandths config 1000)
        together).launched
      * 60000
    ≤ min 10 (max 1 30) * 60000 + (1000 - 1000) * max 1 30
run_events_rate_example =
    run_events_rate thousandths no_number no_number config 1000 1000 together (omega arith)
      (omega arith, (omega arith, (tt, (tt, (tt, tt)))))

abbrev checker : CrunchyrollChecker thousandths
checker = new_checker thousandths config 1000

has_room : 0 < checker.bucket.capacity
unfolding new_checker new_bucket
has_room = omega arith

run_events-launched_iff_example :
    ((run_events thousandths no_number no_number
        (idle thousandths checker)
        (called 1000 ∷ robots_came 0 1000 RobotsFetch.fetch_error ∷ woke 0 1250 ∷ [])).launched
      ≡ 1)
    ↔ (MayAsk thousandths 1000 checker
        × RobotsAllow thousandths no_number no_number 1000 checker RobotsFetch.fetch_error)
run_events-launched_iff_example =
    run_events-launched_iff thousandths no_number no_number 1000 1000 1250 RobotsFetch.fetch_error
      checker has_room

abbrev refusal : ProxyResponse
refusal = record {
  status = 429;
  headers = λ name. none;
  body_bytes = 0;
  body_text = [];
  truncated = false;
  error_code = none;
  transport = none;
}
