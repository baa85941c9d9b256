-- ===== src/Cycle/External/Stale.antt =====
-- worker/src/pipeline/cycle.ts: handleExternalJob plans the service check from the row that it has read
-- before the validation.
use proxy_pulse_crunchyroll.Prelude.{
  ℕ, ◌≡◌, refl, sym, ap, subst, ◌⊎◌, inl, inr, true, false, [], ◌∷◌, none, ◌==◌, ==_iff, if-cases,
  All,
}
use proxy_pulse_crunchyroll.Text.{Text, codes}
use proxy_pulse_crunchyroll.Numbers.{Number}
use proxy_pulse_crunchyroll.Types.{is_service_passed}
use proxy_pulse_crunchyroll.Queue.{ProxyJob, string, number}
use proxy_pulse_crunchyroll.Db.{ProxyRow}
use proxy_pulse_crunchyroll.Db.Sweeps.{Table}
use proxy_pulse_crunchyroll.Db.Sweeps.Counting.{All-update_where}
use proxy_pulse_crunchyroll.Db.Writes.{persist_service_outcomes, served_row}
use proxy_pulse_crunchyroll.Db.Queries.{get_by_ids}
use proxy_pulse_crunchyroll.Manager.Records.{ServiceStageResult}
use proxy_pulse_crunchyroll.Manager.{by_id}
use proxy_pulse_crunchyroll.Manager.Service.{plan_service, add_planned, service_outcome_of}
use proxy_pulse_crunchyroll.Cycle.{
  Call, read_rows, persist_validations, persist_checks, Deps, CycleState, CycleStep, StepResult,
  next, ok, call, perform, modify, ◌>>=◌,
}
use proxy_pulse_crunchyroll.Cycle.Stages.{query}
use proxy_pulse_crunchyroll.Cycle.External.{
  service_check, request_of, goes_on_to_service, external_result, serve_row, write_outcome,
  handle_rows, handle_request, handle_external_job,
}

module _ (N : Number) (deps : Deps N) (cycle : Text) where
  -- The rows with the id of `row` have its status.
  abbrev pub HasStatusOf : ProxyRow N → CycleState N → Type 0
  HasStatusOf row s = All (λ r. ((r.id == row.id) ≡ false) ⊎ (r.status ≡ row.status)) s.table

  abbrev EndsWith : (CycleState N → Type 0) → StepResult (Unit {0}) × CycleState N → Type 0
  EndsWith P (result, t) = (result ≡ ok tt) × P t

  call-none {ℓ} :
      {A : Type ℓ} (c : Call) (step : CycleStep N A) (s : CycleState N)
      → deps.fault c ≡ none
      → call deps c step s ≡ step s
  unfolding call
  call-none c step s e = ap (λ o. perform o step s) e

  All-Unit : (t : Table N) → All (λ _. Unit {0}) t
  All-Unit [] = tt
  All-Unit (r ∷ t) = (tt, All-Unit t)

  -- The plan for one row and its own result.
  planned_status :
      (row : ProxyRow N) (result : ServiceStageResult N) (now : ℕ) (t : Table N)
      → result.proxy_id ≡ row.id
      → is_service_passed result.status ≡ false
      → All
          (λ r. ((r.id == row.id) ≡ false) ⊎ (r.status ≡ row.status))
          (persist_service_outcomes N
            (plan_service N (deps.config).worker (row ∷ []) (result ∷ []) cycle now)
            t)
  unfolding plan_service by_id persist_service_outcomes service_outcome_of
  planned_status row result now t e f =
      rw (e, (==_iff row.id row.id).1 refl, add_planned)
        (All-update_where N (λ r. r.id == row.id)
          (served_row N (service_outcome_of N (deps.config).worker row result cycle now))
          (λ _. Unit {0}) (λ r. ((r.id == row.id) ≡ false) ⊎ (r.status ≡ row.status)) t
          (λ r u.
            if-cases (λ x. ((x.id == row.id) ≡ false) ⊎ (x.status ≡ row.status)) (r.id == row.id)
              (served_row N (service_outcome_of N (deps.config).worker row result cycle now) r) r
              (λ same. inr (rw f refl)) (λ other. inl other))
          (All-Unit t))

  -- The part of the job behind the reading of the row.
  handle_rows-stale :
      (job : ProxyJob) (row : ProxyRow N) (rest : Table N) (s : CycleState N)
      → (deps.config).service_enabled ≡ true
      → is_service_passed (deps.check job row).status ≡ false
      → deps.fault persist_validations ≡ none
      → deps.fault persist_checks ≡ none
      → EndsWith (HasStatusOf row) (handle_rows N deps cycle service_check job (row ∷ rest) s)
  unfolding handle_rows ◌>>=◌ modify goes_on_to_service write_outcome serve_row external_result
  handle_rows-stale job row rest s on unpassed v p =
      rw (on, call-none persist_validations _ s v, call-none persist_checks _ _ p)
        (
          refl,
          planned_status row (external_result N deps cycle job row) (deps.now persist_checks) _ refl
              unpassed,
        )

  -- A service check that arrives from outside and does not pass leaves the proxy with the status that
  -- it had before the job, whatever the validation before it has decided and written.
  pub handle_external_job-stale :
      (job : ProxyJob) (id : ℕ) (row : ProxyRow N) (rest : Table N) (s : CycleState N)
      → job.type ≡ string (codes "SERVICE_CHECK")
      → job.proxy_id ≡ number id
      → get_by_ids N (id ∷ []) s.table ≡ row ∷ rest
      → (deps.config).service_enabled ≡ true
      → is_service_passed (deps.check job row).status ≡ false
      → deps.fault read_rows ≡ none
      → deps.fault persist_validations ≡ none
      → deps.fault persist_checks ≡ none
      → let (result, t) = handle_external_job N deps cycle job s in
        (result ≡ ok tt) × HasStatusOf row t
  unfolding handle_external_job request_of ◌>>=◌ query
  handle_external_job-stale job id row rest s type proxy found on unpassed r v p =
      let E : StepResult (Unit {0}) × CycleState N → Type 0 = EndsWith (HasStatusOf row) in
      subst (λ q. E (handle_request N deps cycle q job job.proxy_id s)) (sym (ap request_of type))
        (subst (λ v. E (handle_request N deps cycle service_check job v s)) (sym proxy)
          (subst (λ x. E (next (handle_rows N deps cycle service_check job) x))
            (sym (call-none read_rows _ s r))
            (subst (λ x. E (handle_rows N deps cycle service_check job x s)) (sym found)
              (handle_rows-stale job row rest s on unpassed v p))))
