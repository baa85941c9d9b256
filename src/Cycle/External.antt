-- ===== src/Cycle/External.antt =====
-- worker/src/pipeline/cycle.ts: handleExternalJob, a job that arrives from the durable queue.
pub mod Stale
use proxy_pulse_crunchyroll.Prelude.{
  Bool, true, false, ◌&&◌, ◌||◌, [], ◌∷◌, none, some, if◌then◌else◌,
}
use proxy_pulse_crunchyroll.Text.{Text, codes, text_eq}
use proxy_pulse_crunchyroll.Numbers.{Number}
use proxy_pulse_crunchyroll.Queue.{ProxyJob, Value, undefined, other, string, number}
use proxy_pulse_crunchyroll.Db.{ProxyRow}
use proxy_pulse_crunchyroll.Db.Sweeps.{Table}
use proxy_pulse_crunchyroll.Db.Writes.{persist_validation_outcomes, persist_service_outcomes}
use proxy_pulse_crunchyroll.Db.Queries.{get_by_ids}
use proxy_pulse_crunchyroll.Manager.{plan_validation}
use proxy_pulse_crunchyroll.Manager.Records.{ServiceStageResult, ValidationOutcome}
use proxy_pulse_crunchyroll.Manager.Service.{plan_service}
use proxy_pulse_crunchyroll.Crunchyroll.Scorer.{service_score}
use proxy_pulse_crunchyroll.Cycle.{
  Call, read_rows, persist_validations, persist_checks, Deps, CycleState, CycleStep, StepResult, ok,
  thrown, call, ◌>>=◌, ◌>>◌,
}
use proxy_pulse_crunchyroll.Cycle.Stages.{rewrite, query, ended, is_type}
use proxy_pulse_crunchyroll.Cycle.Serving.{is_skipped}
use proxy_pulse_crunchyroll.Cycle.Running.{run_cycle}

-- What a job asks for, by its type.
pub data Request : Type 0 where
  whole_cycle validation recheck service_check unsupported : Request

unfoldable pub request_of : Value → Request
request_of type =
    if is_type (codes "DISCOVER") type
      || is_type (codes "POOL_UPDATE") type
      || is_type (codes "STATS_UPDATE") type
    then whole_cycle
    else if is_type (codes "VALIDATE") type
    then validation
    else if is_type (codes "RECHECK") type
    then recheck
    else if is_type (codes "SERVICE_CHECK") type
    then service_check
    else unsupported

-- Whether the service is checked once the validation is written.
unfoldable pub goes_on_to_service : Request → Bool → Bool
goes_on_to_service service_check reachable = true
goes_on_to_service recheck reachable = reachable
goes_on_to_service validation reachable = false
goes_on_to_service whole_cycle reachable = false
goes_on_to_service unsupported reachable = false

module _ (N : Number) (deps : Deps N) (cycle : Text) where
  -- The result of the service check of a job; a failure is never counted as a repeated one.
  external_result : ProxyJob → ProxyRow N → ServiceStageResult N
  external_result job row =
      let result = deps.check job row in
      let score = service_score N (record {
        verdict = result.verdict;
        latency_ms = result.latency_ms;
        consecutive_service_failures = 0;
        ideal_latency_ms = none;
        max_latency_ms = none;
      }) in
      record {
        proxy_id = row.id;
        status = result.status;
        latency_ms = result.latency_ms;
        http_status = result.http_status;
        reason = result.reason;
        details = result.details;
        quality = if is_skipped N result.verdict then none else some score.quality;
      }

  serve_row : ProxyJob → ProxyRow N → CycleStep N (Unit {0})
  unfolding call external_result
  serve_row job row = call deps persist_checks (
      rewrite (
        persist_service_outcomes N (
          plan_service N (deps.config).worker (row ∷ []) (external_result job row ∷ []) cycle
            (deps.now persist_checks))))

  write_outcome : ProxyRow N → ValidationOutcome N → CycleStep N (Unit {0})
  unfolding call
  write_outcome row outcome = call deps persist_validations (
      rewrite (
        persist_validation_outcomes N
          (plan_validation N (deps.config).worker (row ∷ [])
            (record { proxy_id = row.id; outcome = outcome } ∷ [])
            (record {
              cycle_id = cycle;
              now_ms = deps.now persist_validations;
              trust_by_dedupe_key = [];
            })).updates))

  -- The first of the rows that `getByIds` finds; the message leaves the id out.
  handle_rows : Request → ProxyJob → Table N → CycleStep N (Unit {0})
  unfolding serve_row write_outcome goes_on_to_service
  handle_rows request job [] = λ s. (thrown (codes "unknown proxy"), s)
  handle_rows request job (row ∷ rows) =
      let outcome = deps.validate job row in
      write_outcome row outcome
      >> (if goes_on_to_service request outcome.reachable && (deps.config).service_enabled
          then serve_row job row
          else ended)

  -- `job.proxy_id` is a number or undefined: `isProxyJob` lets nothing else through.
  abbrev handle_proxy : Request → ProxyJob → Value → CycleStep N (Unit {0})
  handle_proxy request job (number id) =
      call deps read_rows (query (get_by_ids N (id ∷ []))) >>= handle_rows request job
  handle_proxy request job _ = λ s. (thrown (codes "job is missing proxy_id"), s)

  -- The branches of the switch.
  abbrev handle_request : Request → ProxyJob → Value → CycleStep N (Unit {0})
  handle_request whole_cycle job proxy_id = run_cycle N deps cycle
  handle_request unsupported job proxy_id = λ s. (thrown (codes "unsupported job type"), s)
  handle_request validation job proxy_id = handle_proxy validation job proxy_id
  handle_request recheck job proxy_id = handle_proxy recheck job proxy_id
  handle_request service_check job proxy_id = handle_proxy service_check job proxy_id

  -- `cycle` is the cycle id of the job.
  unfoldable pub handle_external_job : ProxyJob → CycleStep N (Unit {0})
  unfolding request_of handle_rows
  handle_external_job job = handle_request (request_of job.type) job job.proxy_id
