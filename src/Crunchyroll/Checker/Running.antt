-- ===== src/Crunchyroll/Checker/Running.antt =====
-- services/crunchyroll/src/checker.ts: checks in flight together, as a machine over events.
pub mod Parts
pub mod Steps
pub mod Budget
pub mod Rate
pub mod Alone
pub mod Deciding
use proxy_pulse_crunchyroll.Prelude.{
  ℕ, zero, suc, ◌+◌, Bool, true, false, List, [], ◌∷◌, ◌++◌, Option, none, some, if◌then◌else◌,
  ◌>>=◌,
}
use proxy_pulse_crunchyroll.Text.{Text}
use proxy_pulse_crunchyroll.Numbers.{Number}
use proxy_pulse_crunchyroll.Robots.{RobotsFetch}
use proxy_pulse_crunchyroll.Crunchyroll.Rules.{ProxyResponse}
use proxy_pulse_crunchyroll.Crunchyroll.Checker.{
  CheckConfig, new_checker, CrunchyrollChecker, RobotsState, CheckResult, Phase, known, fetching,
  waiting, requesting, Next, ends, awaits, begin_cycle, enter, follow_robots, load_robots, launch,
  finish_check,
}

-- An event of a run: a new cycle, a check that is called, and the check at a place in flight that resumes
-- with the answer to its robots.txt (which is not asked for when this is known), after its pause, or with
-- its response.
pub data Event : Type 0 where
  new_cycle : Text → Event
  called : ℕ → Event
  robots_came : ℕ → ℕ → RobotsFetch → Event
  woke : ℕ → ℕ → Event
  responded : ℕ → ℕ → Option ProxyResponse → Event

module _ (N : Number) where
  open N use {Num}

  -- The checker, the checks in flight, the requests that have been made, and the results.
  pub record Run : Type 0 where
    pub checker : CrunchyrollChecker N
    pub flight : List (Phase N)
    pub launched : ℕ
    pub results : List (CheckResult N)

  -- The checks in flight before a place, the one there, and those after it.
  abbrev pub pick : ℕ → List (Phase N) → Option (Phase N × List (Phase N))
  pick i [] = none
  pick zero (p ∷ ps) = some (p, ps)
  pick (suc i) (p ∷ ps) = pick i ps >>= λ (q, qs). some (q, p ∷ qs)

  abbrev pub is_request : Phase N → Bool
  is_request (known state) = false
  is_request fetching = false
  is_request waiting = false
  is_request requesting = true

  -- A part of a check has run; the other checks stay in flight.
  abbrev pub go_on : Run → List (Phase N) → CrunchyrollChecker N × Next N → Run
  go_on r others (c, ends result) = record r {
    checker = c;
    flight = others;
    results = r.results ++ (result ∷ []);
  }
  go_on r others (c, awaits phase) = record r {
    checker = c;
    flight = phase ∷ others;
    launched = if is_request phase then r.launched + 1 else r.launched;
  }

  module _ (finite_number : Text → Option Num) (date_parse : Text → Option Num) where
    -- The check goes on from its phase, if the event is one that it waits for.
    abbrev pub with_robots : ℕ → RobotsFetch → Run → Option (Phase N × List (Phase N)) → Run
    with_robots now fetched r none = r
    with_robots now fetched r (some (known state, others)) =
        go_on r others (follow_robots N now state r.checker)
    with_robots now fetched r (some (fetching, others)) =
        let (c, state) = load_robots N finite_number date_parse now fetched r.checker in
        go_on r others (follow_robots N now state c)
    with_robots now fetched r (some (waiting, others)) = r
    with_robots now fetched r (some (requesting, others)) = r

    abbrev pub after_pause : ℕ → Run → Option (Phase N × List (Phase N)) → Run
    after_pause now r none = r
    after_pause now r (some (waiting, others)) = go_on r others (launch N now r.checker)
    after_pause now r (some (known state, others)) = r
    after_pause now r (some (fetching, others)) = r
    after_pause now r (some (requesting, others)) = r

    abbrev pub with_response :
        ℕ → Option ProxyResponse → Run → Option (Phase N × List (Phase N)) → Run
    with_response now response r none = r
    with_response now response r (some (requesting, others)) =
        go_on r others (finish_check N finite_number date_parse now response r.checker)
    with_response now response r (some (known state, others)) = r
    with_response now response r (some (fetching, others)) = r
    with_response now response r (some (waiting, others)) = r

    unfoldable pub step : Run → Event → Run
    step r (new_cycle id) = record r { checker = begin_cycle N id r.checker }
    step r (called now) = go_on r r.flight (enter N now r.checker)
    step r (robots_came i now fetched) = with_robots now fetched r (pick i r.flight)
    step r (woke i now) = after_pause now r (pick i r.flight)
    step r (responded i now response) = with_response now response r (pick i r.flight)

    unfoldable pub run_events : Run → List Event → Run
    unfolding step
    run_events r [] = r
    run_events r (event ∷ events) = run_events (step r event) events

  abbrev pub start_run : CheckConfig → ℕ → Run
  start_run config now = record {
    checker = new_checker N config now;
    flight = [];
    launched = 0;
    results = [];
  }
