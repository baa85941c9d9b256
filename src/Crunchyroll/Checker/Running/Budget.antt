-- ===== src/Crunchyroll/Checker/Running/Budget.antt =====
-- How far a cycle's budget of checks can be exceeded.
use proxy_pulse_crunchyroll.Prelude.{
  ℕ, ◌+◌, ◌<◌, ◌≤◌, ◌≡◌, refl, ◌∙◌, subst, List, [], ◌∷◌, Option, arith, length,
}
use proxy_pulse_crunchyroll.Text.{Text}
use proxy_pulse_crunchyroll.Numbers.{Number}
use proxy_pulse_crunchyroll.Crunchyroll.Checker.{
  CheckConfig, CrunchyrollChecker, Phase, known, fetching, waiting, requesting, Next, ends, awaits,
  new_checker, begin_cycle,
}
use proxy_pulse_crunchyroll.Crunchyroll.Checker.Running.{
  Event, new_cycle, called, robots_came, woke, responded, Run, go_on, step, run_events,
}
use proxy_pulse_crunchyroll.Crunchyroll.Checker.Running.{start_run}
use proxy_pulse_crunchyroll.Crunchyroll.Checker.Running.Parts.{
  owed, owed_all, Resumed, Entered, refused, admitted, enter-Entered,
}
use proxy_pulse_crunchyroll.Crunchyroll.Checker.Running.Steps.{Remains, step-keeps}

module _ (N : Number) where
  owed-le : (p : Phase N) → owed N p ≤ 1
  owed-le (known state) = omega arith
  owed-le fetching = omega arith
  owed-le waiting = omega arith
  owed-le requesting = omega arith

  owed_all-le : (ps : List (Phase N)) → owed_all N ps ≤ length ps
  owed_all-le [] = omega arith
  owed_all-le (p ∷ ps) = omega (arith, owed-le p, owed_all-le ps)

  -- The checks of the cycle, with those that may still be made, when at most `limit` are in flight.
  record Kept (config : CheckConfig) (limit : ℕ) (r : Run N) : Type 0 where
    same : r.checker.config ≡ config
    few : length r.flight ≤ limit
    within : r.checker.checks_this_cycle + owed_all N r.flight < config.max_checks_per_cycle + limit

  module _ (config : CheckConfig) (limit : ℕ) (some_checks : 0 < config.max_checks_per_cycle) where
    go_on-Kept :
        (due : ℕ) (r : Run N) (others : List (Phase N)) (o : CrunchyrollChecker N × Next N)
        → Kept config limit r
        → (length r.flight ≡ 1 + length others) × (owed_all N r.flight ≡ due + owed_all N others)
        → Resumed N due r.checker o
        → Kept config limit (go_on N r others o)
    go_on-Kept due r others (c, ends result) k (l, w) f = record {
      same = f.config ∙ k.same;
      few = let g = k.few in omega arith;
      within = omega (arith, k.within, l, w, f.checks, f.owes);
    }
    go_on-Kept due r others (c, awaits phase) k (l, w) f = record {
      same = f.config ∙ k.same;
      few = let g = k.few in omega arith;
      within = omega (arith, k.within, l, w, f.checks, f.owes);
    }

    let_in-Kept :
        (now : ℕ) (r : Run N) (o : CrunchyrollChecker N × Next N)
        → Kept config limit r
        → length r.flight < limit
        → Entered N now r.checker o
        → Kept config limit (go_on N r r.flight o)
    let_in-Kept now r (c, ends result) k room (refused e f g h i) = record {
      same = e ∙ k.same;
      few = k.few;
      within = let w = k.within in omega arith;
    }
    let_in-Kept now r (c, ends result) k room (admitted e f g h i j l) = absurd (omega arith)
    let_in-Kept now r (c, awaits phase) k room (refused e f g h i) = absurd (omega arith)
    let_in-Kept now r (c, awaits phase) k room (admitted e f g h i j l) =
        let m : r.checker.checks_this_cycle < config.max_checks_per_cycle =
          subst (λ d. r.checker.checks_this_cycle < d.max_checks_per_cycle) k.same g in
        record {
          same = e ∙ k.same;
          few = omega (arith, room);
          within = omega (arith, f, l, m, room, owed_all-le r.flight);
        }

    restart-Kept :
        (r : Run N) (id : Text)
        → Kept config limit r
        → Kept config limit (record r { checker = begin_cycle N id r.checker })
    unfolding begin_cycle
    restart-Kept r id k =
        let f = k.few in
        record {
          same = k.same;
          few = f;
          within = omega (arith, some_checks, f, owed_all-le r.flight);
        }

    module _ (finite_number : Text → Option N.Num) (date_parse : Text → Option N.Num) where
      -- A check is only called when fewer than `limit` are in flight.
      abbrev Room : Run N → Event → Type 0
      Room r (called now) = length r.flight < limit
      Room r (new_cycle id) = Unit
      Room r (robots_came i now fetched) = Unit
      Room r (woke i now) = Unit
      Room r (responded i now response) = Unit

      abbrev pub IsLimited : Run N → List Event → Type 0
      IsLimited r [] = Unit
      IsLimited r (event ∷ events) =
          Room r event × IsLimited (step N finite_number date_parse r event) events

      step-Kept :
          (r : Run N) (event : Event)
          → Room r event
          → Kept config limit r
          → Kept config limit (step N finite_number date_parse r event)
      step-Kept r event room k =
          step-keeps N finite_number date_parse (Kept config limit) go_on-Kept r event k
            (remains event room)
        where
          remains :
              (e : Event)
              → Room r e
              → Remains N finite_number date_parse (Kept config limit) go_on-Kept r e
          remains (new_cycle id) h = restart-Kept r id k
          remains (called now) h = let_in-Kept now r _ k h (enter-Entered N now r.checker)
          remains (robots_came i now fetched) h = tt
          remains (woke i now) h = tt
          remains (responded i now response) h = tt

      run_events-Kept :
          (r : Run N) (events : List Event)
          → IsLimited r events
          → Kept config limit r
          → Kept config limit (run_events N finite_number date_parse r events)
      unfolding run_events
      run_events-Kept r [] l k = k
      run_events-Kept r (event ∷ events) (room, l) k =
          run_events-Kept (step N finite_number date_parse r event) events l
            (step-Kept r event room k)

      -- When at most `limit` checks are in flight at a time, and `maxChecksPerCycle` is above 0, the checks of a
      -- cycle exceed it by less than `limit`: one check at a time keeps to the budget, and several may pass
      -- the guard before any of them is counted.
      pub run_events_budget :
          (start : ℕ) (events : List Event)
          → IsLimited (start_run N config start) events
          → let r = run_events N finite_number date_parse (start_run N config start) events in
            r.checker.checks_this_cycle < config.max_checks_per_cycle + limit
      unfolding new_checker
      run_events_budget start events l =
          let k =
            run_events-Kept (start_run N config start) events l
              (record { same = refl; few = omega arith; within = omega (arith, some_checks) }) in
          let w = k.within in omega arith
