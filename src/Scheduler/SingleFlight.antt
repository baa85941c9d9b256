-- ===== src/Scheduler/SingleFlight.antt =====
-- The cycles of a scheduler do not overlap, each is counted once, and stopping is final.
use proxy_pulse_crunchyroll.Prelude.{
  ℕ, ◌+◌, ◌≡◌, refl, sym, subst, ◌⊎◌, inl, inr, Bool, true, false, List, [], ◌∷◌, Option, none,
  some, arith, leb, if◌then◌else◌, Bool-cases, Option-cases, is_some,
}
use proxy_pulse_crunchyroll.Scheduler.{
  on_timer, on_due, on_end, SchedulerDeps, RefreshScheduler, Event, start_call, timer_fires,
  run_now_call, run_once_call, cycle_ends, stop_call, Caller, from_timer, from_run_now,
  from_run_once, CycleReport, Jitter, schedule_next, start, run_once, settle_cycle, resume, step,
  run_events, new_scheduler,
}

abbrev pub running : RefreshScheduler → ℕ
running s = if is_some s.busy then 1 else 0

-- The cycles started are those that have ended and the one that runs; no timer is armed while stopping.
abbrev pub IsSound : RefreshScheduler → Type 0
IsSound s =
    (s.started ≡ s.completed + s.failed + running s) × ((s.stopping ≡ false) ⊎ (s.timer ≡ none))

if-IsSound :
    (b : Bool) (x y : RefreshScheduler)
    → (b ≡ true → IsSound x)
    → (b ≡ false → IsSound y)
    → IsSound (if b then x else y)
if-IsSound true x y h k = h refl
if-IsSound false x y h k = k refl

schedule_next-IsSound :
    (s : RefreshScheduler) (now delay : ℕ) → IsSound s → IsSound (schedule_next s now delay)
unfolding schedule_next
schedule_next-IsSound s now delay h = if-IsSound s.stopping _ _ (λ e. h) (λ e. (h.0, inl e))

resume-IsSound :
    (deps : SchedulerDeps) (s : RefreshScheduler) (caller : Caller) (report : Option CycleReport)
    (now : ℕ) (jitter : Jitter)
    → IsSound s
    → IsSound (resume deps s caller report now jitter)
unfolding resume
resume-IsSound deps s from_timer report now jitter h = schedule_next-IsSound s now _ h
resume-IsSound deps s from_run_now report now jitter h = schedule_next-IsSound s now _ h
resume-IsSound deps s from_run_once report now jitter h = h

run_once-IsSound :
    (s : RefreshScheduler) (caller : Caller) (now : ℕ) → IsSound s → IsSound (run_once s caller now)
unfolding run_once
run_once-IsSound s caller now h =
    if-IsSound (is_some s.busy) _ _ (λ e. h) (λ e. (ground (arith, h.0, e), h.1))

settle_cycle-IsSound :
    (s : RefreshScheduler) (caller : Caller) (started_at : ℕ) (report : Option CycleReport)
    → s.busy ≡ some (caller, started_at)
    → IsSound s
    → IsSound (settle_cycle s started_at report)
unfolding settle_cycle
settle_cycle-IsSound s caller started_at none b h =
    let one : running s ≡ 1 = rw b refl in (omega (arith, h.0, one), h.1)
settle_cycle-IsSound s caller started_at (some report) b h =
    let one : running s ≡ 1 = rw b refl in
    (
      elim (Bool-cases report.is_completed) [
        | inl e ↦ ground (arith, h.0, one, e)
        | inr e ↦ ground (arith, h.0, one, e)
      ],
      h.1,
    )

-- With its timer gone, a sound scheduler is still sound.
clear_timer-IsSound : (s : RefreshScheduler) → IsSound s → IsSound (record s { timer = none })
clear_timer-IsSound s h = (h.0, inr refl)

on_timer-IsSound :
    (deps : SchedulerDeps) (s : RefreshScheduler) (now : ℕ) (jitter : Jitter)
    → IsSound s
    → IsSound (on_timer deps s now jitter)
on_timer-IsSound deps s now jitter h =
    let fired =
      run_once-IsSound (record s { timer = none }) from_timer now (clear_timer-IsSound s h) in
    if-IsSound (is_some s.busy) _ _
      (λ e.
        resume-IsSound deps (run_once (record s { timer = none }) from_timer now) from_timer none
          now jitter fired)
      (λ e. fired)

step-IsSound :
    (deps : SchedulerDeps) (s : RefreshScheduler) (e : Event) → IsSound s → IsSound (step deps s e)
unfolding step
step-IsSound deps s (start_call now jitter) h = unfold start in schedule_next-IsSound s now _ h
step-IsSound deps s (timer_fires now jitter) h = elim (Option-cases s.timer) [
  | inl idle ↦ subst (λ t. IsSound (on_due deps s now jitter t)) (sym idle) h
  | inr (due, armed) ↦
      subst (λ t. IsSound (on_due deps s now jitter t)) (sym armed)
        (if-IsSound (leb due now) _ _ (λ e. on_timer-IsSound deps s now jitter h) (λ e. h))
]
step-IsSound deps s (run_now_call now jitter) h =
    if-IsSound (is_some s.busy) _ _ (λ e. h)
      (λ e. run_once-IsSound (record s { timer = none }) from_run_now now (clear_timer-IsSound s h))
step-IsSound deps s (run_once_call now) h = run_once-IsSound s from_run_once now h
step-IsSound deps s (cycle_ends report now jitter) h = elim (Option-cases s.busy) [
  | inl idle ↦ subst (λ b. IsSound (on_end deps s report now jitter b)) (sym idle) h
  | inr ((caller, started_at), b) ↦
      subst (λ o. IsSound (on_end deps s report now jitter o)) (sym b)
        (resume-IsSound deps (settle_cycle s started_at report) caller report now jitter
          (settle_cycle-IsSound s caller started_at report b h))
]
step-IsSound deps s stop_call h = (h.0, inr refl)

run_events-IsSound :
    (deps : SchedulerDeps) (s : RefreshScheduler) (es : List Event)
    → IsSound s
    → IsSound (run_events deps s es)
unfolding run_events
run_events-IsSound deps s [] h = h
run_events-IsSound deps s (e ∷ es) h =
    run_events-IsSound deps (step deps s e) es (step-IsSound deps s e h)

-- Whatever is called and whenever cycles end or throw, at most one cycle runs: those started are those
-- counted as completed or failed, and the one that runs, if any. Once stopping, no timer is armed.
pub run_events_single_flight :
    (deps : SchedulerDeps) (es : List Event) → IsSound (run_events deps new_scheduler es)
run_events_single_flight deps es = run_events-IsSound deps new_scheduler es (refl, inl refl)
