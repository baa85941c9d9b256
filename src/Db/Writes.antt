-- ===== src/Db/Writes.antt =====
-- db/src/repositories/proxies.ts: the claims of a cycle and the writes of its results. The rows of the two
-- history tables that are inserted along are the outcomes themselves; no batch of statements fails.
pub mod Rows
use proxy_pulse_crunchyroll.Prelude.{
  ℕ, ◌+◌, Bool, true, false, ◌&&◌, List, [], ◌∷◌, Option, none, some, ◌==◌, if◌then◌else◌, chunks,
}
use proxy_pulse_crunchyroll.Text.{Text}
use proxy_pulse_crunchyroll.Numbers.{Number}
use proxy_pulse_crunchyroll.Types.{ProxyStatus, new, pending, active, quarantined, dead}
use proxy_pulse_crunchyroll.Db.{ProxyRow, Note}
use proxy_pulse_crunchyroll.Db.Sweeps.{Table, update_where, among}
use proxy_pulse_crunchyroll.Manager.Records.{ValidationUpdate, ServiceOutcome}

-- `status IN ('new', 'quarantined', 'active')`
abbrev pub is_claimable : ProxyStatus → Bool
is_claimable new = true
is_claimable pending = false
is_claimable active = true
is_claimable quarantined = true
is_claimable dead = false

module _ (N : Number) where
  abbrev pub claimed : List ℕ → ProxyRow N → Bool
  claimed is r = among N is r && is_claimable r.status

  abbrev pub claim_row : Text → ProxyRow N → ProxyRow N
  claim_row cycle r = record r { status = pending; last_cycle_id = some cycle }

  mark_chunks : Text → List (List ℕ) → Table N → Table N
  mark_chunks cycle [] t = t
  mark_chunks cycle (chunk ∷ rest) t =
      mark_chunks cycle rest (update_where N (claimed chunk) (claim_row cycle) t)

  -- The statements go out for WRITE_CHUNK ids each.
  unfoldable pub mark_pending : Text → List ℕ → Table N → Table N
  unfolding mark_chunks
  mark_pending cycle is t = mark_chunks cycle (chunks 200 is) t

  -- `COALESCE(?, notes)`
  abbrev coalesce : Option (Note N) → Option (Note N) → Option (Note N)
  coalesce (some a) b = some a
  coalesce none b = b

  abbrev pub validated_row : ValidationUpdate N → ProxyRow N → ProxyRow N
  validated_row u r = record r {
    status = u.status;
    validation_status = u.validation_status;
    latency_ms = u.latency_ms;
    last_checked_at = some u.created_at;
    last_passed_at = if u.reachable then some u.created_at else r.last_passed_at;
    consecutive_failures = u.consecutive_failures;
    check_count = r.check_count + 1;
    pass_count = r.pass_count + (if u.reachable then 1 else 0);
    score = u.score;
    service_status = u.service_status;
    last_error_code = u.error_code;
    notes = coalesce u.notes r.notes;
  }

  unfoldable pub persist_validation_outcomes : List (ValidationUpdate N) → Table N → Table N
  persist_validation_outcomes [] t = t
  persist_validation_outcomes (u ∷ us) t =
      persist_validation_outcomes us (update_where N (λ r. r.id == u.id) (validated_row u) t)

  abbrev pub served_row : ServiceOutcome N → ProxyRow N → ProxyRow N
  served_row o r = record r {
    service_status = o.status;
    service_latency_ms = o.latency_ms;
    service_checked_at = some o.created_at;
    service_fail_reason = o.reason;
    score = o.score;
    status = o.status_next;
  }

  unfoldable pub persist_service_outcomes : List (ServiceOutcome N) → Table N → Table N
  persist_service_outcomes [] t = t
  persist_service_outcomes (o ∷ os) t =
      persist_service_outcomes os (update_where N (λ r. r.id == o.id) (served_row o) t)
