-- ===== src/Concurrency/Pool.antt =====
-- shared/src/concurrency.ts: mapWithConcurrency, as a step relation: the runners share a cursor,
-- and the workers settle in any order.
pub mod Results
use proxy_pulse_crunchyroll.Prelude.{
  ℕ, ◌+◌, ◌-◌, ◌<◌, ◌≤◌, min, max, ◌≡◌, List, [], ◌∷◌, ◌++◌, ◌==◌, if◌then◌else◌,
}

-- `Settled<R>`, with the abort error apart.
pub data Settled (E R : Type 0) : Type 0 where
  fulfilled : R → Settled E R
  rejected : E → Settled E R
  aborted : Settled E R

-- `idle` counts the runners that are between two items; `results` is the array, by its writes.
pub record Batch (E R : Type 0) : Type 0 where
  pub total : ℕ
  pub cursor : ℕ
  pub idle : ℕ
  pub in_flight : List ℕ
  pub results : List (ℕ × Settled E R)

-- `Math.max(1, Math.min(Math.floor(limit) || 1, total))`
abbrev pub concurrency_of : ℕ → ℕ → ℕ
concurrency_of limit total = max 1 (min (if limit == 0 then 1 else limit) total)

abbrev pub start : (E R : Type 0) → ℕ → ℕ → Batch E R
start E R limit total = record {
  total = total;
  cursor = 0;
  idle = concurrency_of limit total;
  in_flight = [];
  results = [];
}

pub data Step {E R : Type 0} (s : Batch E R) : Batch E R → Type 0 where
  -- A runner takes the next index and calls the worker on it.
  take_item :
      0 < s.idle
      → s.cursor < s.total
      → Step s (record s {
        cursor = s.cursor + 1;
        idle = s.idle - 1;
        in_flight = s.cursor ∷ s.in_flight;
      })
  -- Once the signal is aborted, a runner writes the abort error in place of calling the worker.
  skip_item :
      0 < s.idle
      → s.cursor < s.total
      → Step s (record s { cursor = s.cursor + 1; results = (s.cursor, aborted) ∷ s.results })
  -- A worker settles, and its runner goes on.
  settle_item :
      (before after : List ℕ) (index : ℕ) (r : Settled E R)
      → s.in_flight ≡ before ++ (index ∷ after)
      → Step s (record s {
        idle = s.idle + 1;
        in_flight = before ++ after;
        results = (index, r) ∷ s.results;
      })
  -- A runner finds no item left and returns; it has moved the cursor all the same.
  retire :
      0 < s.idle
      → s.total ≤ s.cursor
      → Step s (record s { cursor = s.cursor + 1; idle = s.idle - 1 })

pub data Steps {E R : Type 0} (s : Batch E R) : Batch E R → Type 0 where
  here : Steps s s
  next : {t u : Batch E R} → Steps s t → Step t u → Steps s u

-- `Promise.all` has settled: every runner has returned.
abbrev pub IsDone : {E R : Type 0} → Batch E R → Type 0
IsDone s = (s.idle ≡ 0) × (s.in_flight ≡ [])
