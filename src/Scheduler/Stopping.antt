-- ===== src/Scheduler/Stopping.antt =====
-- Stopping is final.
use proxy_pulse_crunchyroll.Prelude.{
  ℕ, ◌+◌, max, ◌≡◌, refl, sym, subst, Bool, true, false, List, [], ◌∷◌, Option, none, some,
  if◌then◌else◌, is_some,
}
use proxy_pulse_crunchyroll.Scheduler.{
  on_due, on_end, SchedulerDeps, RefreshScheduler, Event, start_call, timer_fires, run_now_call,
  run_once_call, cycle_ends, stop_call, Caller, from_timer, from_run_now, from_run_once,
  CycleReport, Jitter, schedule_next, start, run_once, settle_cycle, resume, step, run_events,
}

abbrev pub IsHalted : RefreshScheduler → Type 0
IsHalted s = (s.stopping ≡ true) × (s.timer ≡ none)

if-IsHalted :
    (b : Bool) (x y : RefreshScheduler) → IsHalted x → IsHalted y → IsHalted (if b then x else y)
if-IsHalted true x y h k = h
if-IsHalted false x y h k = k

schedule_next-IsHalted :
    (s : RefreshScheduler) (now delay : ℕ) → IsHalted s → IsHalted (schedule_next s now delay)
unfolding schedule_next
schedule_next-IsHalted s now delay h =
    subst
      (λ b. IsHalted (
        if b then s else record s {
          timer = some (now + max 1000 delay);
          next_run_at = some (now + max 1000 delay);
        }))
      (sym (h.0)) h

resume-IsHalted :
    (deps : SchedulerDeps) (s : RefreshScheduler) (caller : Caller) (report : Option CycleReport)
    (now : ℕ) (jitter : Jitter)
    → IsHalted s
    → IsHalted (resume deps s caller report now jitter)
unfolding resume
resume-IsHalted deps s from_timer report now jitter h = schedule_next-IsHalted s now _ h
resume-IsHalted deps s from_run_now report now jitter h = schedule_next-IsHalted s now _ h
resume-IsHalted deps s from_run_once report now jitter h = h

run_once-IsHalted :
    (s : RefreshScheduler) (caller : Caller) (now : ℕ)
    → IsHalted s
    → IsHalted (run_once s caller now)
unfolding run_once
run_once-IsHalted s caller now h = if-IsHalted (is_some s.busy) _ _ h h

settle_cycle-IsHalted :
    (s : RefreshScheduler) (started_at : ℕ) (report : Option CycleReport)
    → IsHalted s
    → IsHalted (settle_cycle s started_at report)
unfolding settle_cycle
settle_cycle-IsHalted s started_at none h = h
settle_cycle-IsHalted s started_at (some report) h = h

on_end-IsHalted :
    (deps : SchedulerDeps) (s : RefreshScheduler) (report : Option CycleReport) (now : ℕ)
    (jitter : Jitter) (busy : Option (Caller × ℕ))
    → IsHalted s
    → IsHalted (on_end deps s report now jitter busy)
on_end-IsHalted deps s report now jitter none h = h
on_end-IsHalted deps s report now jitter (some (caller, started_at)) h =
    resume-IsHalted deps (settle_cycle s started_at report) caller report now jitter
      (settle_cycle-IsHalted s started_at report h)

step-IsHalted :
    (deps : SchedulerDeps) (s : RefreshScheduler) (e : Event)
    → IsHalted s
    → IsHalted (step deps s e)
unfolding step
step-IsHalted deps s (start_call now jitter) h = unfold start in schedule_next-IsHalted s now _ h
step-IsHalted deps s (timer_fires now jitter) h =
    subst (λ t. IsHalted (on_due deps s now jitter t)) (sym (h.1)) h
step-IsHalted deps s (run_now_call now jitter) h =
    if-IsHalted (is_some s.busy) _ _ h
      (run_once-IsHalted (record s { timer = none }) from_run_now now (h.0, refl))
step-IsHalted deps s (run_once_call now) h = run_once-IsHalted s from_run_once now h
step-IsHalted deps s (cycle_ends report now jitter) h =
    on_end-IsHalted deps s report now jitter s.busy h
step-IsHalted deps s stop_call h = (refl, refl)

run_events_keeps :
    (deps : SchedulerDeps) (s : RefreshScheduler) (es : List Event)
    → IsHalted s
    → IsHalted (run_events deps s es)
unfolding run_events
run_events_keeps deps s [] h = h
run_events_keeps deps s (e ∷ es) h =
    run_events_keeps deps (step deps s e) es (step-IsHalted deps s e h)

-- After `stop`, in whatever state it comes and whatever is called or ends after it, the scheduler stays
-- stopping and no timer is armed again.
pub run_events-IsHalted :
    (deps : SchedulerDeps) (s : RefreshScheduler) (es : List Event)
    → IsHalted (run_events deps (step deps s stop_call) es)
unfolding step
run_events-IsHalted deps s es = run_events_keeps deps (step deps s stop_call) es (refl, refl)
