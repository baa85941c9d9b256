-- ===== src/Scheduler/Tests.antt =====
-- A run of the scheduler, and its theorem at a concrete input.
use proxy_pulse_crunchyroll.Prelude.{◌≡◌, refl, true, List, [], ◌∷◌, none, some}
use proxy_pulse_crunchyroll.Scheduler.{
  SchedulerDeps, Event, start_call, timer_fires, run_now_call, run_once_call, cycle_ends, stop_call,
  later, schedule_next, start, run_once, settle_cycle, resume, delay_after, step, run_events,
  new_scheduler,
}
use proxy_pulse_crunchyroll.Scheduler.SingleFlight.{IsSound, run_events_single_flight}
use proxy_pulse_crunchyroll.Scheduler.Stopping.{IsHalted, run_events-IsHalted}

abbrev deps : SchedulerDeps
deps = record { interval_minutes = 15; run_on_startup = true }

-- The first cycle runs when a second is asked for; it ends, the next one throws after `stop`.
abbrev history : List Event
history =
    start_call 0 (later 0)
    ∷ timer_fires 1500 (later 0)
    ∷ run_now_call 2000 (later 0)
    ∷ cycle_ends (some (record { is_completed = true; duration_ms = 60000 })) 61500 (later 10)
    ∷ run_once_call 70000
    ∷ stop_call
    ∷ cycle_ends none 80000 (later 0)
    ∷ []

final_counts :
    let s = run_events deps new_scheduler history in
    (s.started ≡ 2) × ((s.completed ≡ 1) × ((s.failed ≡ 1) × ((s.skipped ≡ 1) × (s.timer ≡ none))))
unfolding run_events step start run_once settle_cycle resume schedule_next delay_after
final_counts = (refl, (refl, (refl, (refl, refl))))

run_events_single_flight_example : IsSound (run_events deps new_scheduler history)
run_events_single_flight_example = run_events_single_flight deps history

run_events-IsHalted_example : IsHalted (run_events deps (step deps new_scheduler stop_call) history)
run_events-IsHalted_example = run_events-IsHalted deps new_scheduler history
