-- ===== src/Scheduler.antt =====
-- worker/src/pipeline/scheduler.ts: RefreshScheduler as a machine. What comes from outside is an
-- event: a call of a public method, the timer, the end of a cycle. A chain of calls runs to its next
-- `await`; what waits for the running cycle is kept in the state.
pub mod SingleFlight
pub mod Stopping
mod Tests
use proxy_pulse_crunchyroll.Prelude.{
  ℕ, ◌+◌, ◌-◌, ◌*◌, max, Bool, true, false, List, [], ◌∷◌, Option, none, some, leb, if◌then◌else◌,
  is_some,
}

-- A cycle's report; `none` where the cycle threw.
pub record CycleReport : Type 0 where
  pub is_completed : Bool
  pub duration_ms : ℕ

-- Who awaits the running cycle: the timer's callback, `runNow`, or a direct call of `runOnce`.
pub data Caller : Type 0 where
  from_timer from_run_now from_run_once : Caller

pub record SchedulerDeps : Type 0 where
  pub interval_minutes : ℕ
  pub run_on_startup : Bool

-- `busy` and who awaits are one field: `runOnce` is busy exactly while its cycle is awaited.
pub record RefreshScheduler : Type 0 where
  pub timer : Option ℕ
  pub last : Option CycleReport
  pub last_result : Option Bool
  pub last_run_at : Option ℕ
  pub completed : ℕ
  pub failed : ℕ
  pub stopping : Bool
  pub next_run_at : Option ℕ
  pub busy : Option (Caller × ℕ)
  -- How often a cycle was started, and how often a request for one was turned down.
  pub started : ℕ
  pub skipped : ℕ

-- `Math.max(MIN_DELAY_MS, intervalMs() - consumed + jitterMs())`, the jitter rounded and of either sign.
pub data Jitter : Type 0 where
  later sooner : ℕ → Jitter

unfoldable pub delay_after : SchedulerDeps → ℕ → Jitter → ℕ
delay_after deps consumed (later j) = max 5000 ((deps.interval_minutes * 60000 + j) - consumed)
delay_after deps consumed (sooner j) = max 5000 (deps.interval_minutes * 60000 - (consumed + j))

-- `scheduleNext`: the timer, if any, is replaced.
unfoldable pub schedule_next : RefreshScheduler → ℕ → ℕ → RefreshScheduler
schedule_next s now delay_ms = if s.stopping then s else record s {
  timer = some (now + max 1000 delay_ms);
  next_run_at = some (now + max 1000 delay_ms);
}

unfoldable pub start : SchedulerDeps → RefreshScheduler → ℕ → Jitter → RefreshScheduler
unfolding schedule_next delay_after
start deps s now jitter =
    schedule_next s now (if deps.run_on_startup then 1500 else delay_after deps 0 jitter)

-- What `runOnce` does up to its `await`; `busy` stays what it was where the call is skipped.
unfoldable pub run_once : RefreshScheduler → Caller → ℕ → RefreshScheduler
run_once s caller now =
    if is_some s.busy
    then record s { skipped = s.skipped + 1 }
    else record s { busy = some (caller, now); started = s.started + 1 }

-- What it does once the cycle has ended, up to and with `finally`.
unfoldable pub settle_cycle : RefreshScheduler → ℕ → Option CycleReport → RefreshScheduler
settle_cycle s started_at none = record s {
  busy = none;
  failed = s.failed + 1;
  last_result = some false;
}
settle_cycle s started_at (some report) = record s {
  busy = none;
  last = some report;
  last_result = some report.is_completed;
  last_run_at = some started_at;
  completed = if report.is_completed then s.completed + 1 else s.completed;
  failed = if report.is_completed then s.failed else s.failed + 1;
}

abbrev pub consumed_by : Option CycleReport → ℕ
consumed_by none = 0
consumed_by (some report) = report.duration_ms

-- The continuation of the caller: the timer's callback subtracts the last report there is, `runNow`
-- the report of its own cycle.
unfoldable pub resume :
    SchedulerDeps → RefreshScheduler → Caller → Option CycleReport → ℕ → Jitter → RefreshScheduler
unfolding schedule_next delay_after
resume deps s from_timer report now jitter =
    schedule_next s now (delay_after deps (consumed_by s.last) jitter)
resume deps s from_run_now report now jitter =
    schedule_next s now (delay_after deps (consumed_by report) jitter)
resume deps s from_run_once report now jitter = s

pub data Event : Type 0 where
  start_call timer_fires run_now_call : ℕ → Jitter → Event
  run_once_call : ℕ → Event
  cycle_ends : Option CycleReport → ℕ → Jitter → Event
  stop_call : Event

-- The timer's callback: a skipped cycle resumes at once.
abbrev pub on_timer : SchedulerDeps → RefreshScheduler → ℕ → Jitter → RefreshScheduler
on_timer deps s now jitter =
    if is_some s.busy
    then resume deps (run_once (record s { timer = none }) from_timer now) from_timer none now
        jitter
    else run_once (record s { timer = none }) from_timer now

abbrev pub on_due : SchedulerDeps → RefreshScheduler → ℕ → Jitter → Option ℕ → RefreshScheduler
on_due deps s now jitter none = s
on_due deps s now jitter (some due) = if leb due now then on_timer deps s now jitter else s

abbrev pub on_end :
    SchedulerDeps
    → RefreshScheduler
    → Option CycleReport
    → ℕ
    → Jitter
    → Option (Caller × ℕ)
    → RefreshScheduler
on_end deps s report now jitter none = s
on_end deps s report now jitter (some (caller, started_at)) =
    resume deps (settle_cycle s started_at report) caller report now jitter

unfoldable pub step : SchedulerDeps → RefreshScheduler → Event → RefreshScheduler
unfolding start run_once settle_cycle resume schedule_next delay_after
step deps s (start_call now jitter) = start deps s now jitter
step deps s (timer_fires now jitter) = on_due deps s now jitter s.timer
step deps s (run_now_call now jitter) =
    if is_some s.busy
    then record s { skipped = s.skipped + 1 }
    else run_once (record s { timer = none }) from_run_now now
step deps s (run_once_call now) = run_once s from_run_once now
step deps s (cycle_ends report now jitter) = on_end deps s report now jitter s.busy
step deps s stop_call = record s { stopping = true; timer = none }

unfoldable pub run_events : SchedulerDeps → RefreshScheduler → List Event → RefreshScheduler
unfolding step
run_events deps s [] = s
run_events deps s (e ∷ es) = run_events deps (step deps s e) es

abbrev pub new_scheduler : RefreshScheduler
new_scheduler = record {
  timer = none;
  last = none;
  last_result = none;
  last_run_at = none;
  completed = 0;
  failed = 0;
  stopping = false;
  next_run_at = none;
  busy = none;
  started = 0;
  skipped = 0;
}
