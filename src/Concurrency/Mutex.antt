-- ===== src/Concurrency/Mutex.antt =====
-- shared/src/concurrency.ts: createMutex, as a machine over the calls of the wrapped function and the
-- settling of the task that is running.
use proxy_pulse_crunchyroll.Prelude.{
  ℕ, suc, ◌+◌, ◌≡◌, refl, Bool, true, false, List, [], ◌∷◌, arith, if◌then◌else◌,
}

-- `running !== null`, with how often the task was started, has settled, and was refused.
pub record Mutex : Type 0 where
  pub running : Bool
  pub started : ℕ
  pub settled : ℕ
  pub refused : ℕ

abbrev pub create_mutex : Mutex
create_mutex = record { running = false; started = 0; settled = 0; refused = 0 }

pub data Event : Type 0 where
  call settle : Event

-- A call returns `null` while the task runs; `finally` clears `running` when the task settles.
unfoldable pub step : Mutex → Event → Mutex
step m call =
    if m.running
    then record m { refused = m.refused + 1 }
    else record m { running = true; started = m.started + 1 }
step m settle = if m.running then record m { running = false; settled = m.settled + 1 } else m

unfoldable pub run_events : Mutex → List Event → Mutex
run_events m [] = m
run_events m (e ∷ es) = run_events (step m e) es

abbrev in_progress : Bool → ℕ
in_progress running = if running then 1 else 0

abbrev calls : List Event → ℕ
calls [] = 0
calls (call ∷ es) = suc (calls es)
calls (settle ∷ es) = calls es

run_events_facts :
    (m : Mutex) (es : List Event)
    → m.started ≡ m.settled + in_progress m.running
    → let r = run_events m es in
      (r.started ≡ r.settled + in_progress r.running)
      × (r.started + r.refused ≡ m.started + m.refused + calls es)
unfolding run_events step
run_events_facts m [] h = omega arith
run_events_facts m (call ∷ es) h = ground (arith, run_events_facts (step m call) es)
run_events_facts m (settle ∷ es) h = ground (arith, run_events_facts (step m settle) es)

-- Whatever the order of calls and settlings, at most one run of the task is in progress, it is in
-- progress exactly when the lock is held, and every call has either started one or been refused.
pub mutex_single_flight :
    (es : List Event)
    → let m = run_events create_mutex es in
      (m.started ≡ m.settled + in_progress m.running) × (m.started + m.refused ≡ calls es)
mutex_single_flight es = omega (arith, run_events_facts create_mutex es refl)
