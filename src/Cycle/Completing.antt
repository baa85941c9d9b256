-- ===== src/Cycle/Completing.antt =====
-- worker/src/pipeline/cycle.ts: where the stages lead when none of them throws.
use proxy_pulse_crunchyroll.Prelude.{
  All-keep, ◌+◌, ◌*◌, ◌≡◌, refl, ◌⊎◌, inl, inr, false, List, [], ◌∷◌, none, some, if-cases, All,
}
use proxy_pulse_crunchyroll.Text.{Text, text_eq}
use proxy_pulse_crunchyroll.Numbers.{Number}
use proxy_pulse_crunchyroll.Db.Sweeps.{Table, orphaned}
use proxy_pulse_crunchyroll.Manager.Finalize.{IsSettled, finalize-IsSettled}
use proxy_pulse_crunchyroll.Cycle.{
  CycleStatus, completed, CycleRow, CycleReport, start_cycle, sweep_pool, compute_stats,
  store_stats, complete_cycle, set_completed, clear_error, set_next_run, read_prune, prune_history,
  set_prune, Deps, CycleState, CycleStep, StepResult, ok, thrown,
}
use proxy_pulse_crunchyroll.Cycle.Stages.{discover_stage}
use proxy_pulse_crunchyroll.Cycle.Validating.{validate_stage}
use proxy_pulse_crunchyroll.Cycle.Serving.{service_stage}
use proxy_pulse_crunchyroll.Cycle.Records.{update_cycle}
use proxy_pulse_crunchyroll.Cycle.Running.{
  sweep_step, sweep_stage, stats_stage, complete_stage, maintenance_if_needed, stages,
}
use proxy_pulse_crunchyroll.Cycle.Outcomes.{
  Holds, Leads, bind-Leads, call-Leads, modify-Leads, query-Leads, pure-Leads, if-Leads,
}
use proxy_pulse_crunchyroll.Cycle.Keeping.{IsClosed}

module _ (N : Number) (deps : Deps N) (cycle : Text) where
  -- No row is left with a claim of this cycle.
  abbrev pub IsReleased : CycleState N → Type 0
  IsReleased s = All (λ r. orphaned N cycle r ≡ false) s.table

  -- Each row of `refresh_cycles` with this id has the status.
  abbrev pub HasStatus : CycleStatus → CycleState N → Type 0
  HasStatus status s =
      All (λ row. (text_eq row.cycle_id cycle ≡ false) ⊎ (row.status ≡ status)) s.cycles

  -- What the tables say of a cycle that has completed.
  pub record IsCompleted (s : CycleState N) : Type 0 where
    pub released : IsReleased s
    pub row : HasStatus completed s
    pub last : (s.meta).last_completed_cycle_id ≡ some cycle
    pub error : (s.meta).last_cycle_error ≡ none
    pub next_run :
        (s.meta).next_run_at ≡ some (deps.now start_cycle + (deps.config).interval_minutes * 60000)

  pub update_cycle-HasStatus :
      (status : CycleStatus) (change : CycleRow → CycleRow) (rows : List CycleRow)
      → ((row : CycleRow) → (change row).status ≡ status)
      → All
          (λ row. (text_eq row.cycle_id cycle ≡ false) ⊎ (row.status ≡ status))
          (update_cycle cycle change rows)
  unfolding update_cycle
  update_cycle-HasStatus status change [] h = tt
  update_cycle-HasStatus status change (row ∷ rows) h = (
    if-cases {A = CycleRow} (λ r. (text_eq r.cycle_id cycle ≡ false) ⊎ (r.status ≡ status))
        (text_eq row.cycle_id cycle) _ _ (λ _. inr (h row)) (λ other. inl other),
    update_cycle-HasStatus status change rows h,
  )

  settled-released :
      (t : Table N)
      → All (IsSettled N (deps.config).worker cycle (deps.now sweep_pool)) t
      → All (λ r. orphaned N cycle r ≡ false) t
  settled-released [] h = tt
  settled-released (r ∷ t) ((p, q), hs) = (rw p refl, settled-released t hs)

  sweep_stage-Leads : Leads (λ _. Unit {0}) IsReleased (sweep_stage N deps cycle)
  unfolding sweep_stage sweep_step
  sweep_stage-Leads =
      bind-Leads {R = IsReleased}
        (call-Leads deps sweep_pool (record {
          led = λ s u.
              settled-released _
                (finalize-IsSettled N (deps.config).worker cycle (deps.now sweep_pool) s.table);
        }))
        λ summary. modify-Leads _ λ s h. h

  stats_stage-Leads : Leads IsReleased IsReleased (stats_stage N deps cycle)
  unfolding stats_stage
  stats_stage-Leads = bind-Leads (call-Leads deps compute_stats (query-Leads _)) λ stats.
      bind-Leads (call-Leads deps store_stats (modify-Leads _ λ s h. h))
        λ _. modify-Leads _ λ s h. h

  complete_stage-Leads : Leads IsReleased IsCompleted (complete_stage N deps cycle)
  unfolding complete_stage
  complete_stage-Leads =
      bind-Leads {R = λ s. IsReleased s × HasStatus completed s}
        (call-Leads deps complete_cycle
          (modify-Leads _ λ s h. (h, update_cycle-HasStatus completed _ s.cycles (λ row. refl))))
        λ _.
          bind-Leads
            {R = λ s.
              IsReleased s
              × HasStatus completed s
              × ((s.meta).last_completed_cycle_id ≡ some cycle)}
            (call-Leads deps set_completed (modify-Leads _ λ s (h, k). (h, k, refl)))
            λ _.
              bind-Leads
                {R = λ s.
                  IsReleased s
                  × HasStatus completed s
                  × ((s.meta).last_completed_cycle_id ≡ some cycle)
                  × ((s.meta).last_cycle_error ≡ none)}
                (call-Leads deps clear_error (modify-Leads _ λ s (h, k, l). (h, k, l, refl)))
                λ _. call-Leads deps set_next_run (
                  modify-Leads _ λ s (h, k, l, e). record {
                    released = h;
                    row = k;
                    last = l;
                    error = e;
                    next_run = refl;
                  })

  maintenance_if_needed-Leads : Leads IsCompleted IsCompleted (maintenance_if_needed N deps cycle)
  unfolding maintenance_if_needed
  maintenance_if_needed-Leads =
      bind-Leads {R = IsCompleted} (call-Leads deps read_prune (record { led = λ s h. h })) λ last.
        if-Leads _ (pure-Leads _) (
          bind-Leads {R = IsCompleted}
            (call-Leads deps prune_history (
              modify-Leads _ λ s h. record {
                released = All-keep _ _ s.table h.released;
                row = All-keep _ _ s.cycles h.row;
                last = h.last;
                error = h.error;
                next_run = h.next_run;
              }))
            λ _. call-Leads deps set_prune (
              modify-Leads _ λ s h. record {
                released = h.released;
                row = h.row;
                last = h.last;
                error = h.error;
                next_run = h.next_run;
              }))

  any-Leads {ℓ} :
      {A : Type ℓ} {P : CycleState N → Type 0} (step : CycleStep N A) → Leads P (λ _. Unit {0}) step
  any-Leads {A = A} step = record { led = λ s p. ends (step s) }
    where
      ends : (r : StepResult A × CycleState N) → Holds (λ _ _. Unit {0}) (λ _. Unit {0}) r
      ends (ok a, s) = tt
      ends (thrown m, s) = tt

  pub stages-Leads : Leads (λ _. Unit {0}) IsCompleted (stages N deps cycle)
  unfolding stages
  stages-Leads = bind-Leads (any-Leads (discover_stage N deps cycle)) λ _.
      bind-Leads (any-Leads (validate_stage N deps cycle)) λ rows.
        bind-Leads (any-Leads (service_stage N deps cycle rows)) λ _.
          bind-Leads sweep_stage-Leads λ _.
            bind-Leads stats_stage-Leads
              λ _. bind-Leads complete_stage-Leads λ _. maintenance_if_needed-Leads

  -- The report of a cycle that no error has reached.
  abbrev pub IsClean : CycleReport → Type 0
  IsClean r = (r.status ≡ completed) × (r.error ≡ none)

  pub IsClean-IsClosed : IsClosed N deps cycle IsClean
  IsClean-IsClosed = record {
    discovered = λ r h. h;
    upserted = λ u r h. h;
    queued = λ found r h. h;
    validated = λ rows jobs r h. h;
    candidates = λ fresh stale r h. h;
    served = λ results r h. h;
    pooled = λ f r h. h;
    finished = λ finished r h. h;
  }
