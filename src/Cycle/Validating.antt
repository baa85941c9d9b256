-- ===== src/Cycle/Validating.antt =====
-- worker/src/pipeline/cycle.ts: the validation of the rows that a cycle selects.
use proxy_pulse_crunchyroll.Prelude.{
  List, [], ◌∷◌, map, none, some, ◌==◌, if◌then◌else◌, length, take,
}
use proxy_pulse_crunchyroll.Text.{Text, codes}
use proxy_pulse_crunchyroll.Numbers.{Number}
use proxy_pulse_crunchyroll.Queue.{ProxyJob}
use proxy_pulse_crunchyroll.Db.Sweeps.{Table, ids}
use proxy_pulse_crunchyroll.Db.Writes.{mark_pending, persist_validation_outcomes}
use proxy_pulse_crunchyroll.Db.Queries.{QueueOptions, select_validation_queue}
use proxy_pulse_crunchyroll.Manager.{plan_validation}
use proxy_pulse_crunchyroll.Manager.Records.{ValidatedOutcome, ValidationPlan, Tally}
use proxy_pulse_crunchyroll.Cycle.{
  ValidationReport, select_queue, claim, send_validations, consume_validations, persist_validations,
  Deps, CycleStep, pure, modify, call, ◌>>=◌, ◌>>◌,
}
use proxy_pulse_crunchyroll.Cycle.Stages.{update_report, rewrite, query, ended, job_row, job_of}

module _ (N : Number) where
  -- `outcomes.set(id, …)`, which keeps the place of a key that is there.
  set_outcome : ValidatedOutcome N → List (ValidatedOutcome N) → List (ValidatedOutcome N)
  set_outcome o [] = o ∷ []
  set_outcome o (p ∷ ps) =
      let rest = set_outcome o ps in if p.proxy_id == o.proxy_id then o ∷ ps else p ∷ rest

  module _ (deps : Deps N) (cycle : Text) where
    -- The handler of a validation job, on the map of the outcomes.
    validate_job : Table N → List (ValidatedOutcome N) → ProxyJob → List (ValidatedOutcome N)
    unfolding set_outcome
    validate_job rows outcomes job = elim (job_row N (codes "VALIDATE") rows job) [
      | none ↦ outcomes
      | some row ↦
          set_outcome (record { proxy_id = row.id; outcome = deps.validate job row }) outcomes
    ]

    unfoldable pub outcomes_of :
        Table N → List ProxyJob → List (ValidatedOutcome N) → List (ValidatedOutcome N)
    unfolding validate_job
    outcomes_of rows [] outcomes = outcomes
    outcomes_of rows (job ∷ jobs) outcomes = outcomes_of rows jobs (validate_job rows outcomes job)

    abbrev pub queue_options : QueueOptions
    queue_options = record {
      new_limit = (deps.config).max_new_per_cycle;
      quarantine_limit = (deps.config).max_quarantine_recheck_per_cycle;
      recheck_limit = (deps.config).max_recheck_per_cycle;
      recheck_after_minutes = (deps.config).recheck_after_minutes;
      now = deps.now select_queue;
    }

    abbrev pub validated_report : Tally → ValidationReport → ValidationReport
    validated_report t v = record v {
      checked = t.checked;
      passed = t.passed;
      failed = t.failed;
      added = t.added;
      retained = t.retained;
    }

    abbrev pub update_validation : (ValidationReport → ValidationReport) → CycleStep N (Unit {0})
    update_validation f = modify (update_report λ r. record r { validation = f r.validation })

    abbrev pub plan_of : Table N → List ProxyJob → ValidationPlan N
    plan_of rows jobs =
        plan_validation N (deps.config).worker rows (outcomes_of rows jobs []) (record {
          cycle_id = cycle;
          now_ms = deps.now persist_validations;
          trust_by_dedupe_key = (deps.discovery).trust;
        })

    -- What is done with the rows of the queue, when there are any.
    unfoldable pub validate_rows : Table N → CycleStep N (Unit {0})
    unfolding call outcomes_of job_of
    validate_rows rows = do
      call deps claim (rewrite (mark_pending N cycle (ids N rows)))
      call deps send_validations ended
      processed ←
          call deps consume_validations
            (pure (deps.drain (map (job_of N deps cycle send_validations (codes "VALIDATE")) rows)))
      call deps persist_validations
          (rewrite (persist_validation_outcomes N (plan_of rows processed).updates))
      update_validation (validated_report (plan_of rows processed).tally)

    -- The rows that it gives are those of `rowsById`.
    unfoldable pub validate_stage : CycleStep N (Table N)
    unfolding call validate_rows
    validate_stage = do
      found ← call deps select_queue (query (select_validation_queue N queue_options))
      let rows = take (deps.config).validation_max_per_cycle found
      update_validation (λ v. record v { queued = length rows })
      if 0 == length rows then ended else validate_rows rows
      pure rows
