-- ===== src/Cycle/Report.antt =====
-- worker/src/pipeline/cycle.ts: what the report of a cycle says, whatever call rejects.
use proxy_pulse_crunchyroll.Prelude.{
  ℕ, ◌+◌, ◌≤◌, ◌≡◌, refl, ◌∙◌, ◌⊎◌, inl, inr, not, List, [], ◌∷◌, ◌++◌, Option, some, arith, length,
  take, length-take, keep, length-keep,
}
use proxy_pulse_crunchyroll.Text.{Text}
use proxy_pulse_crunchyroll.Numbers.{Number}
use proxy_pulse_crunchyroll.Queue.{ProxyJob}
use proxy_pulse_crunchyroll.Db.Sweeps.{Table, ids, among}
use proxy_pulse_crunchyroll.Db.Queries.{UpsertResult}
use proxy_pulse_crunchyroll.Manager.Records.{ServiceStageResult}
use proxy_pulse_crunchyroll.Manager.Tallies.{plan_validation-Counts}
use proxy_pulse_crunchyroll.Cycle.{
  CycleReport, ServiceReport, fail_cycle, record_error, release_pending, start_cycle, set_current,
  CycleStatus, remove_current, Deps, CycleState, CycleStep, StepResult, ok, thrown, failed, modify,
}
use proxy_pulse_crunchyroll.Cycle.Stages.{is_policy_allowed, discovered_report, upserted_report}
use proxy_pulse_crunchyroll.Cycle.Validating.{plan_of, validated_report, outcomes_of}
use proxy_pulse_crunchyroll.Cycle.Serving.{
  service_budget, service_candidates, count_result, count_results,
}
use proxy_pulse_crunchyroll.Manager.Finalize.{FinalizeSummary}
use proxy_pulse_crunchyroll.Cycle.Records.{empty_report, pool_report}
use proxy_pulse_crunchyroll.Cycle.Running.{silently, on_failure, caught, at_end, begin, run_cycle}
use proxy_pulse_crunchyroll.Cycle.Outcomes.{
  Holds, bind-Holds, Holds-state, Keeps, bind-Keeps, call-Keeps, modify-Keeps,
}
use proxy_pulse_crunchyroll.Cycle.Keeping.{IsClosed, stages-Keeps}

module _ (N : Number) (deps : Deps N) (cycle : Text) where
  -- The counts of a report agree with each other and stay within the limits of the configuration.
  pub record IsConsistent (r : CycleReport) : Type 0 where
    pub discovered :
        ((r.discovery).accepted + (r.discovery).blocked_by_policy
          ≡ length (deps.discovery).candidates)
        ⊎ (((r.discovery).accepted ≡ 0) × ((r.discovery).blocked_by_policy ≡ 0))
    pub queued : (r.validation).queued ≤ (deps.config).validation_max_per_cycle
    pub validated : (r.validation).passed + (r.validation).failed ≡ (r.validation).checked
    pub budget : (r.service).queued ≤ service_budget N deps cycle
    pub served :
        (r.service).passed + (r.service).blocked + (r.service).failed + (r.service).skipped
        ≡ (r.service).checked

  -- The discovery report changes only to one that counts the candidates of the run.
  discovered-IsConsistent :
      (r : CycleReport)
      → IsConsistent r
      → IsConsistent
          (record r { discovery = discovered_report N deps cycle deps.discovery r.discovery })
  discovered-IsConsistent r h = record {
    discovered =
        inl
          (omega (arith, length-keep (is_policy_allowed N deps cycle) (deps.discovery).candidates));
    queued = h.queued;
    validated = h.validated;
    budget = h.budget;
    served = h.served;
  }

  upserted-IsConsistent :
      (u : UpsertResult) (r : CycleReport)
      → IsConsistent r
      → IsConsistent (record r { discovery = upserted_report N deps cycle u r.discovery })
  upserted-IsConsistent u r h = record {
    discovered = h.discovered;
    queued = h.queued;
    validated = h.validated;
    budget = h.budget;
    served = h.served;
  }

  validated-IsConsistent :
      (rows : Table N) (jobs : List ProxyJob) (r : CycleReport)
      → IsConsistent r
      → IsConsistent (record r {
        validation =
            validated_report N deps cycle (plan_of N deps cycle rows jobs).tally r.validation;
      })
  validated-IsConsistent rows jobs r h = record {
    discovered = h.discovered;
    queued = h.queued;
    validated =
        (plan_validation-Counts N (deps.config).worker rows (outcomes_of N deps cycle rows jobs [])
          _).both;
    budget = h.budget;
    served = h.served;
  }

  queued-IsConsistent :
      (found : Table N) (r : CycleReport)
      → IsConsistent r
      → IsConsistent (record r {
        validation = record r.validation {
          queued = length (take (deps.config).validation_max_per_cycle found);
        };
      })
  queued-IsConsistent found r h = record {
    discovered = h.discovered;
    queued = omega (arith, length-take (deps.config).validation_max_per_cycle found);
    validated = h.validated;
    budget = h.budget;
    served = h.served;
  }

  -- Each result adds to one of the four counts.
  abbrev Adds : ServiceReport → ServiceReport → Type 0
  Adds r t =
      (t.passed + t.blocked + t.failed + t.skipped + r.checked
        ≡ r.passed + r.blocked + r.failed + r.skipped + t.checked)
      × (t.queued ≡ r.queued)

  count_result-Adds :
      (r : ServiceReport) (result : ServiceStageResult N)
      → Adds r (count_result N deps cycle r result)
  unfolding count_result
  count_result-Adds r result = ground arith

  count_results-Adds :
      (results : List (ServiceStageResult N)) (r : ServiceReport)
      → Adds r (count_results N deps cycle results r)
  unfolding count_results
  count_results-Adds [] r = (refl, refl)
  count_results-Adds (result ∷ results) r =
      let (a, b) = count_result-Adds r result in
      let (c, d) = count_results-Adds results (count_result N deps cycle r result) in
      (omega arith, d ∙ b)

  served-IsConsistent :
      (results : List (ServiceStageResult N)) (r : CycleReport)
      → IsConsistent r
      → IsConsistent (record r { service = count_results N deps cycle results r.service })
  served-IsConsistent results r h =
      let (a, b) = count_results-Adds results r.service in
      record {
        discovered = h.discovered;
        queued = h.queued;
        validated = h.validated;
        budget = let g = h.budget in rw b g;
        served = let g = h.served in omega arith;
      }

  candidates-IsConsistent :
      (fresh stale : Table N) (r : CycleReport)
      → IsConsistent r
      → IsConsistent (record r {
        service = record r.service {
          queued = length (service_candidates N deps cycle fresh stale);
        };
      })
  unfolding service_candidates
  candidates-IsConsistent fresh stale r h = record {
    discovered = h.discovered;
    queued = h.queued;
    validated = h.validated;
    budget = omega (
      arith,
      length-take (service_budget N deps cycle)
          (fresh ++ keep (λ row. not (among N (ids N fresh) row)) stale),
    );
    served = h.served;
  }

  -- The other parts of the report do not matter.
  pool-IsConsistent :
      (f : FinalizeSummary) (r : CycleReport)
      → IsConsistent r
      → IsConsistent (record r { pool = pool_report f })
  pool-IsConsistent f r h = record {
    discovered = h.discovered;
    queued = h.queued;
    validated = h.validated;
    budget = h.budget;
    served = h.served;
  }

  status-IsConsistent :
      (status : CycleStatus) (finished : ℕ) (error : Option Text) (r : CycleReport)
      → IsConsistent r
      → IsConsistent (record r { status = status; finished_at = finished; error = error })
  status-IsConsistent status finished error r h = record {
    discovered = h.discovered;
    queued = h.queued;
    validated = h.validated;
    budget = h.budget;
    served = h.served;
  }

  -- A call whose rejection is ignored.
  silently-Keeps :
      {step : CycleStep N (Unit {0})} (s : CycleState N)
      → Keeps IsConsistent step
      → IsConsistent s.report
      → IsConsistent (silently step s).report
  silently-Keeps s k i = Holds-state (λ t. IsConsistent t.report) _ (k.kept s i)

  on_failure-IsConsistent :
      (message : Text) (s : CycleState N)
      → IsConsistent s.report
      → IsConsistent (on_failure N deps cycle message s).report
  unfolding on_failure
  on_failure-IsConsistent message s i =
      silently-Keeps _ (call-Keeps deps release_pending (modify-Keeps _ λ s. refl)) (
        silently-Keeps _ (call-Keeps deps record_error (modify-Keeps _ λ s. refl)) (
          silently-Keeps _ (call-Keeps deps fail_cycle (modify-Keeps _ λ s. refl)) (
            status-IsConsistent failed (deps.now fail_cycle) (some (take 300 message)) s.report i)))

  caught-IsConsistent :
      (r : StepResult (Unit {0}) × CycleState N)
      → Holds (λ _ t. IsConsistent t.report) (λ t. IsConsistent t.report) r
      → IsConsistent (caught N deps cycle r).report
  caught-IsConsistent (ok u, s) h = h
  caught-IsConsistent (thrown m, s) h = on_failure-IsConsistent m s h

  at_end-IsConsistent :
      (s : CycleState N) → IsConsistent s.report → IsConsistent (at_end N deps cycle s).report
  unfolding at_end
  at_end-IsConsistent s i =
      silently-Keeps _ (call-Keeps deps remove_current (modify-Keeps _ λ s. refl)) i

  empty-IsConsistent : (started : ℕ) → IsConsistent (empty_report started)
  empty-IsConsistent started = record {
    discovered = inr (refl, refl);
    queued = omega arith;
    validated = omega arith;
    budget = omega arith;
    served = omega arith;
  }

  begin-IsConsistent :
      (s : CycleState N)
      → Holds (λ _ t. IsConsistent t.report) (λ t. IsConsistent t.report) (begin N deps cycle s)
  unfolding begin modify
  begin-IsConsistent s =
      let rest : Keeps IsConsistent _ =
        bind-Keeps (call-Keeps deps start_cycle (modify-Keeps _ λ s. refl))
          λ _. call-Keeps deps set_current (modify-Keeps _ λ s. refl) in
      bind-Holds (λ _ t. IsConsistent t.report) (λ t. IsConsistent t.report)
        (λ _ t. IsConsistent t.report) _ _ s (empty-IsConsistent (deps.now start_cycle))
        (λ _ t i. rest.kept t i)

  IsConsistent-IsClosed : IsClosed N deps cycle IsConsistent
  IsConsistent-IsClosed = record {
    discovered = discovered-IsConsistent;
    upserted = upserted-IsConsistent;
    queued = queued-IsConsistent;
    validated = validated-IsConsistent;
    candidates = candidates-IsConsistent;
    served = served-IsConsistent;
    pooled = pool-IsConsistent;
    finished = λ finished r h. status-IsConsistent r.status finished r.error r h;
  }

  -- Whatever calls of a cycle reject, and at whatever point, its report accounts for every candidate
  -- of the discovery as accepted or blocked by the policy (or for none yet), queues no more proxies
  -- for the validation and for the service than the configuration allows in a cycle, and counts every
  -- check as passed or failed, and every service check as passed, blocked, failed or skipped.
  pub run_cycle-IsConsistent :
      (s : CycleState N) → IsConsistent ((run_cycle N deps cycle s).1).report
  unfolding run_cycle
  run_cycle-IsConsistent s =
      Holds-state (λ t. IsConsistent t.report) _
        (bind-Holds (λ _ t. IsConsistent t.report) (λ t. IsConsistent t.report)
          (λ _ t. IsConsistent t.report) _ _ s (begin-IsConsistent s)
          (λ _ t i.
            at_end-IsConsistent _
              (caught-IsConsistent _ ((stages-Keeps N deps cycle IsConsistent-IsClosed).kept t i))))
