-- ===== src/Db/Sweeps.antt =====
-- db/src/repositories/proxies.ts: the sweeps over the `proxies` table, each an SQL statement read
-- as a pass over the rows, with the number of the rows that it has changed.
pub mod Counting
pub mod Capacity
use proxy_pulse_crunchyroll.Prelude.{
  ℕ, ◌+◌, ◌-◌, ◌*◌, Bool, true, false, not, ◌&&◌, List, [], ◌∷◌, Option, none, some, ltb, leb, ◌==◌,
  if◌then◌else◌, take, any,
}
use proxy_pulse_crunchyroll.Text.{Text, codes, text_eq}
use proxy_pulse_crunchyroll.Numbers.{Number}
use proxy_pulse_crunchyroll.Types.{
  ProxyStatus, new, pending, active, quarantined, dead, ValidationStatus, is_active,
}
use proxy_pulse_crunchyroll.Db.{ProxyRow, Note, expired, consecutive_failures, pool_capacity}

abbrev pub is_pending : ProxyStatus → Bool
is_pending pending = true
is_pending new = false
is_pending active = false
is_pending quarantined = false
is_pending dead = false

-- `last_passed_at IS NULL OR last_passed_at < ?` at `isoAgo(now, ttl)`.
abbrev pub is_stale : ℕ → ℕ → Option ℕ → Bool
is_stale ttl_minutes now none = true
is_stale ttl_minutes now (some ts) = ltb (ts + ttl_minutes * 60000) now

module _ (N : Number) where
  abbrev pub Table : Type 0
  Table = List (ProxyRow N)

  -- UPDATE … SET … WHERE …
  unfoldable pub update_where : (ProxyRow N → Bool) → (ProxyRow N → ProxyRow N) → Table → Table
  update_where test change [] = []
  update_where test change (r ∷ rs) = (if test r then change r else r) ∷ update_where test change rs

  -- SELECT COUNT(*) … WHERE …, which is also `rowsAffected` of an update.
  abbrev pub count_where : (ProxyRow N → Bool) → Table → ℕ
  count_where test [] = 0
  count_where test (r ∷ rs) = (if test r then 1 else 0) + count_where test rs

  -- SELECT … WHERE …
  abbrev pub select_where : (ProxyRow N → Bool) → Table → Table
  select_where test [] = []
  select_where test (r ∷ rs) = if test r then r ∷ select_where test rs else select_where test rs

  abbrev pub stale_member : ℕ → ℕ → ProxyRow N → Bool
  stale_member ttl now r = is_active r.status && is_stale ttl now r.last_passed_at

  abbrev pub expire_row : ProxyRow N → ProxyRow N
  expire_row r = record r {
    status = dead;
    validation_status = ValidationStatus.failed;
    last_error_code = some (codes "expired");
    notes = some expired;
  }

  unfoldable pub expire_stale : ℕ → ℕ → Table → Table × ℕ
  expire_stale ttl_minutes now t = (
    update_where (stale_member ttl_minutes now) expire_row t,
    count_where (stale_member ttl_minutes now) t,
  )

  abbrev pub failing_member : ℕ → ProxyRow N → Bool
  failing_member most r = is_active r.status && leb most r.consecutive_failures

  abbrev pub quarantine_row : Note N → ProxyRow N → ProxyRow N
  quarantine_row note r = record r { status = quarantined; notes = some note }

  unfoldable pub quarantine_failures : ℕ → Table → Table × ℕ
  quarantine_failures most t = (
    update_where (failing_member most) (quarantine_row consecutive_failures) t,
    count_where (failing_member most) t,
  )

  -- `latency_ms IS NULL DESC, latency_ms DESC, id ASC`
  abbrev slower_first : Option N.Num → Option N.Num → Bool → Bool
  slower_first none none by_id = by_id
  slower_first none (some y) by_id = true
  slower_first (some x) none by_id = false
  slower_first (some x) (some y) by_id =
      if N.lt y x then true else if N.lt x y then false else by_id

  -- Whether a row stands before another by `score ASC` and then by the order above.
  unfoldable pub demoted_before : ProxyRow N → ProxyRow N → Bool
  demoted_before a b =
      if N.lt a.score b.score
      then true
      else if N.lt b.score a.score
      then false
      else slower_first a.latency_ms b.latency_ms (leb a.id b.id)

  -- ORDER BY, by insertion.
  unfoldable pub insert_row : ProxyRow N → Table → Table
  insert_row r [] = r ∷ []
  insert_row r (s ∷ t) = if demoted_before r s then r ∷ s ∷ t else s ∷ insert_row r t

  unfoldable pub demotion_order : Table → Table
  unfolding insert_row
  demotion_order [] = []
  demotion_order (r ∷ t) = insert_row r (demotion_order t)

  abbrev pub ids : Table → List ℕ
  ids [] = []
  ids (r ∷ t) = r.id ∷ ids t

  abbrev pub member : ProxyRow N → Bool
  member r = is_active r.status

  -- The ids of the sub-select.
  unfoldable pub overflow_ids : ℕ → Table → List ℕ
  overflow_ids overflow t = ids (take overflow (demotion_order (select_where member t)))

  abbrev pub among : List ℕ → ProxyRow N → Bool
  among is r = any (λ i. i == r.id) is

  unfoldable pub enforce_pool_capacity : ℕ → Table → Table × ℕ
  enforce_pool_capacity max_active t =
      let count = count_where member t in
      let over = overflow_ids (count - max_active) t in
      if leb count max_active
      then (t, 0)
      else (update_where (among over) (quarantine_row pool_capacity) t, count_where (among over) t)

  abbrev pub in_cycle : Text → Option Text → Bool
  in_cycle cycle none = false
  in_cycle cycle (some c) = text_eq c cycle

  abbrev pub release_row : ProxyRow N → ProxyRow N
  release_row r = record r { status = new }

  abbrev pub orphaned : Text → ProxyRow N → Bool
  orphaned cycle r = is_pending r.status && in_cycle cycle r.last_cycle_id

  unfoldable pub release_orphaned_pending : Text → Table → Table × ℕ
  release_orphaned_pending cycle t =
      (update_where (orphaned cycle) release_row t, count_where (orphaned cycle) t)

  -- `last_cycle_id IS NULL OR last_cycle_id != ?`
  abbrev pub foreign : Text → ProxyRow N → Bool
  foreign cycle r = is_pending r.status && not (in_cycle cycle r.last_cycle_id)

  unfoldable pub release_foreign_pending : Text → Table → Table × ℕ
  release_foreign_pending cycle t =
      (update_where (foreign cycle) release_row t, count_where (foreign cycle) t)
