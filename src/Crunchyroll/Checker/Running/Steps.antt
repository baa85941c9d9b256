-- ===== src/Crunchyroll/Checker/Running/Steps.antt =====
-- An invariant that the parts of a check keep, each event keeps.
use proxy_pulse_crunchyroll.Prelude.{ℕ, ◌+◌, ◌≡◌, List, Option, none, some, length}
use proxy_pulse_crunchyroll.Text.{Text}
use proxy_pulse_crunchyroll.Numbers.{Number}
use proxy_pulse_crunchyroll.Robots.{RobotsFetch}
use proxy_pulse_crunchyroll.Crunchyroll.Rules.{ProxyResponse}
use proxy_pulse_crunchyroll.Crunchyroll.Checker.{
  CrunchyrollChecker, Phase, known, fetching, waiting, requesting, Next, begin_cycle, enter,
}
use proxy_pulse_crunchyroll.Crunchyroll.Checker.Running.{
  Event, new_cycle, called, robots_came, woke, responded, Run, pick, go_on, with_robots,
  after_pause, with_response, step,
}
use proxy_pulse_crunchyroll.Crunchyroll.Checker.Running.Parts.{
  owed_all, Resumed, launch-Resumed, follow_robots-Resumed, load_robots-follows,
  finish_check-Resumed, Picked, pick-Picked,
}

module _ (N : Number) (finite_number : Text → Option N.Num) (date_parse : Text → Option N.Num)
    (P : Run N → Type 0)
    (resumes : (due : ℕ) (r : Run N) (others : List (Phase N)) (o : CrunchyrollChecker N × Next N)
      → P r
      → (length r.flight ≡ 1 + length others) × (owed_all N r.flight ≡ due + owed_all N others)
      → Resumed N due r.checker o
      → P (go_on N r others o)) where
  with_robots-keeps :
      (now : ℕ) (fetched : RobotsFetch) (r : Run N) (o : Option (Phase N × List (Phase N)))
      → P r
      → Picked N r o
      → P (with_robots N finite_number date_parse now fetched r o)
  with_robots-keeps now fetched r none k h = k
  with_robots-keeps now fetched r (some (known state, others)) k h =
      resumes 1 r others _ k h (follow_robots-Resumed N now state r.checker)
  with_robots-keeps now fetched r (some (fetching, others)) k h =
      resumes 1 r others _ k h
        (load_robots-follows N finite_number date_parse now fetched r.checker)
  with_robots-keeps now fetched r (some (waiting, others)) k h = k
  with_robots-keeps now fetched r (some (requesting, others)) k h = k

  after_pause-keeps :
      (now : ℕ) (r : Run N) (o : Option (Phase N × List (Phase N)))
      → P r
      → Picked N r o
      → P (after_pause N finite_number date_parse now r o)
  after_pause-keeps now r none k h = k
  after_pause-keeps now r (some (known state, others)) k h = k
  after_pause-keeps now r (some (fetching, others)) k h = k
  after_pause-keeps now r (some (waiting, others)) k h =
      resumes 1 r others _ k h (launch-Resumed N now r.checker)
  after_pause-keeps now r (some (requesting, others)) k h = k

  with_response-keeps :
      (now : ℕ) (response : Option ProxyResponse) (r : Run N)
      (o : Option (Phase N × List (Phase N)))
      → P r
      → Picked N r o
      → P (with_response N finite_number date_parse now response r o)
  with_response-keeps now response r none k h = k
  with_response-keeps now response r (some (known state, others)) k h = k
  with_response-keeps now response r (some (fetching, others)) k h = k
  with_response-keeps now response r (some (waiting, others)) k h = k
  with_response-keeps now response r (some (requesting, others)) k h =
      resumes 0 r others _ k h
        (finish_check-Resumed N finite_number date_parse now response r.checker)

  -- What is left to show of an event.
  abbrev pub Remains : Run N → Event → Type 0
  Remains r (called now) = P (go_on N r r.flight (enter N now r.checker))
  Remains r (new_cycle id) = P (record r { checker = begin_cycle N id r.checker })
  Remains r (robots_came i now fetched) = Unit
  Remains r (woke i now) = Unit
  Remains r (responded i now response) = Unit

  pub step-keeps :
      (r : Run N) (event : Event)
      → P r
      → Remains r event
      → P (step N finite_number date_parse r event)
  unfolding step
  step-keeps r (new_cycle id) k h = h
  step-keeps r (called now) k h = h
  step-keeps r (robots_came i now fetched) k h =
      with_robots-keeps now fetched r (pick N i r.flight) k (pick-Picked N i r)
  step-keeps r (woke i now) k h = after_pause-keeps now r (pick N i r.flight) k (pick-Picked N i r)
  step-keeps r (responded i now response) k h =
      with_response-keeps now response r (pick N i r.flight) k (pick-Picked N i r)
