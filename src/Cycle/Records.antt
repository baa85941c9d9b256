-- ===== src/Cycle/Records.antt =====
-- db/src/repositories/cycles.ts and worker/src/pipeline/cycle.ts: the rows of the cycles and the records
-- that runCycle fills in.
use proxy_pulse_crunchyroll.Prelude.{
  ℕ, ◌+◌, ◌*◌, Bool, true, false, ◌&&◌, List, [], ◌∷◌, Option, none, some, ltb, leb, if◌then◌else◌,
  or_default, take,
}
use proxy_pulse_crunchyroll.Text.{Text, text_eq}
use proxy_pulse_crunchyroll.Manager.Finalize.{FinalizeSummary}
use proxy_pulse_crunchyroll.Cycle.{
  CycleStatus, running, completed, failed, CycleCounts, CycleRow, CycleReport, PoolReport,
}

abbrev pub empty_report : ℕ → CycleReport
empty_report started = record {
  status = completed;
  finished_at = started;
  discovery = record {
    sources_ok = 0;
    sources_failed = 0;
    discovered = 0;
    accepted = 0;
    rejected = 0;
    duplicates = 0;
    blocked_by_policy = 0;
    upserted = 0;
    inserted = 0;
  };
  validation = record { queued = 0; checked = 0; passed = 0; failed = 0; added = 0; retained = 0 };
  service = record { queued = 0; checked = 0; passed = 0; blocked = 0; failed = 0; skipped = 0 };
  pool = record { size = 0; expired = 0; quarantined = 0; demoted = 0; released = 0 };
  error = none;
}

-- `cycles.start`: a row is inserted, or the one with this id starts anew.
unfoldable pub start_row : Text → ℕ → List CycleRow → List CycleRow
start_row cycle started [] =
    record {
      cycle_id = cycle;
      status = running;
      started_at = started;
      finished_at = none;
      counts = none;
      error = none;
    }
    ∷ []
start_row cycle started (row ∷ rows) =
    let rest = start_row cycle started rows in
    if text_eq row.cycle_id cycle
    then record row { status = running; started_at = started; error = none } ∷ rows
    else row ∷ rest

-- UPDATE refresh_cycles SET … WHERE cycle_id = ?
unfoldable pub update_cycle : Text → (CycleRow → CycleRow) → List CycleRow → List CycleRow
update_cycle cycle change [] = []
update_cycle cycle change (row ∷ rows) =
    (if text_eq row.cycle_id cycle then change row else row) ∷ update_cycle cycle change rows

-- `cycles.complete` and `cycles.fail`
abbrev pub complete_row : ℕ → CycleCounts → CycleRow → CycleRow
complete_row finished counts row = record row {
  status = completed;
  finished_at = some finished;
  counts = some counts;
  error = none;
}

abbrev pub fail_row : ℕ → Text → CycleRow → CycleRow
fail_row finished message row = record row {
  status = failed;
  finished_at = some finished;
  error = some (take 500 message);
}

abbrev pub counts_of : CycleReport → CycleCounts
counts_of r = record {
  candidates_discovered = (r.discovery).discovered;
  candidates_new = (r.discovery).inserted;
  candidates_checked = (r.validation).checked;
  candidates_passed = (r.validation).passed;
  candidates_failed = (r.validation).failed;
  service_checked = (r.service).checked;
  service_passed = (r.service).passed;
  pool_size = (r.pool).size;
  pool_added = (r.validation).added;
  pool_quarantined = (r.pool).quarantined;
  pool_expired = (r.pool).expired;
}

abbrev pub pool_report : FinalizeSummary → PoolReport
pool_report f = record {
  size = f.pool_size;
  expired = f.expired;
  quarantined = f.quarantined;
  demoted = f.demoted;
  released = f.released;
}

-- Whether the last prune is a day ago, or there was none.
abbrev pub is_prune_due : ℕ → Option ℕ → Bool
is_prune_due now none = true
is_prune_due now (some last) = leb (last + 24 * 60 * 60 * 1000) now

-- `status <> 'running' AND COALESCE(finished_at, started_at) < ?`
abbrev pub is_old_cycle : ℕ → ℕ → CycleRow → Bool
is_old_cycle now days row =
    is_ended row.status && ltb (or_default row.finished_at row.started_at + days * 86400000) now
  where
    is_ended : CycleStatus → Bool
    is_ended running = false
    is_ended completed = true
    is_ended failed = true
