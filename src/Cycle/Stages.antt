-- ===== src/Cycle/Stages.antt =====
-- worker/src/pipeline/cycle.ts: what the stages of runCycle share, and its first stage.
use proxy_pulse_crunchyroll.Prelude.{
  ◌-◌, Bool, false, List, [], Option, none, if◌then◌else◌, length, keep,
}
use proxy_pulse_crunchyroll.Text.{Text, text_eq}
use proxy_pulse_crunchyroll.Numbers.{Number}
use proxy_pulse_crunchyroll.Ip.Inspect.{is_proxy_endpoint_allowed}
use proxy_pulse_crunchyroll.Queue.{ProxyJob, Value, string, number}
use proxy_pulse_crunchyroll.Db.{ProxyRow}
use proxy_pulse_crunchyroll.Db.Sweeps.{Table}
use proxy_pulse_crunchyroll.Db.Queries.{Candidate, UpsertResult, upsert_candidates}
use proxy_pulse_crunchyroll.Manager.{by_id}
use proxy_pulse_crunchyroll.Cycle.{
  DiscoveryReport, DiscoveryRun, CycleReport, Call, discover, upsert, Deps, CycleState, CycleStep,
  StepResult, pure, modify, call, ◌>>=◌, ◌>>◌,
}

module _ {N : Number} where
  abbrev pub update_report : (CycleReport → CycleReport) → CycleState N → CycleState N
  update_report f s = record s { report = f s.report }

  -- A call that changes the table.
  abbrev pub rewrite : (Table N → Table N) → CycleStep N (Unit {0})
  rewrite f = modify (λ s. record s { table = f s.table })

  -- A call that reads the table.
  unfoldable pub query {ℓ} : {A : Type ℓ} → (Table N → A) → CycleStep N A
  query f s = (StepResult.ok (f s.table), s)

  abbrev pub ended : CycleStep N (Unit {0})
  ended = pure tt

-- `job.type === …` and the row of its `proxy_id`.
abbrev pub is_type : Text → Value → Bool
is_type type (string s) = text_eq s type
is_type type _ = false

module _ (N : Number) where
  abbrev pub row_at : Value → Table N → Option (ProxyRow N)
  row_at (number id) rows = by_id N id rows
  row_at _ rows = none

  abbrev pub job_row : Text → Table N → ProxyJob → Option (ProxyRow N)
  job_row type rows job = if is_type type job.type then row_at job.proxy_id rows else none

  module _ (deps : Deps N) (cycle : Text) where
    unfoldable pub job_of : Call → Text → ProxyRow N → ProxyJob
    job_of c type row = record {
      job_id = string (deps.job_id c row.id);
      type = string type;
      cycle_id = string cycle;
      issued_at = deps.iso (deps.now c);
      proxy_id = number row.id;
      reason = none;
      attempt = none;
    }

    abbrev pub is_policy_allowed : Candidate → Bool
    is_policy_allowed c =
        (is_proxy_endpoint_allowed c.host
          (record { allow_private = (deps.config).allow_private_endpoints; allow = [] })).ok

    -- The discovery report once the policy has been applied.
    abbrev pub discovered_report : DiscoveryRun N → DiscoveryReport → DiscoveryReport
    discovered_report run d =
        let allowed = keep is_policy_allowed run.candidates in
        record d {
          blocked_by_policy = length run.candidates - length allowed;
          discovered = run.discovered;
          accepted = length allowed;
          rejected = run.rejected;
          duplicates = run.duplicates;
          sources_ok = run.sources_ok;
          sources_failed = run.sources_failed;
        }

    abbrev pub upserted_report : UpsertResult → DiscoveryReport → DiscoveryReport
    upserted_report u d = record d { upserted = u.total; inserted = u.inserted }

    unfoldable pub upsert_step : List Candidate → CycleStep N UpsertResult
    upsert_step candidates s =
        let (table, result) = upsert_candidates N cycle candidates s.table in
        (StepResult.ok result, record s { table = table })

    unfoldable pub discover_stage : CycleStep N (Unit {0})
    unfolding call upsert_step
    discover_stage = do
      call deps discover ended
      let run = deps.discovery
      modify (update_report λ r. record r { discovery = discovered_report run r.discovery })
      result ← call deps upsert (upsert_step (keep is_policy_allowed run.candidates))
      modify (update_report λ r. record r { discovery = upserted_report result r.discovery })
