-- ===== src/Db/Queries.antt =====
-- db/src/repositories/proxies.ts: what a cycle reads from the `proxies` table, and how the discovered
-- candidates get into it. A table lists its rows by their ids' age; ORDER BY is an insertion sort, which
-- keeps the order of rows that compare alike.
pub mod Selected
pub mod Upserted
use proxy_pulse_crunchyroll.Prelude.{
  ℕ, ◌+◌, ◌-◌, max, Bool, true, false, not, ◌&&◌, ◌||◌, List, [], ◌∷◌, ◌++◌, Option, none, some,
  ltb, if◌then◌else◌, or_default, length, take, any, keep, chunks,
}
use proxy_pulse_crunchyroll.Text.{Text, text_eq}
use proxy_pulse_crunchyroll.Numbers.{Number}
use proxy_pulse_crunchyroll.Types.{
  ProxyProtocol, ProxyStatus, new, pending, active, quarantined, dead, ValidationStatus,
  ServiceStatus, AnonymityLevel, is_active, is_quarantined,
}
use proxy_pulse_crunchyroll.Db.{ProxyRow}
use proxy_pulse_crunchyroll.Db.Sweeps.{
  Table, update_where, count_where, select_where, among, is_stale,
}

abbrev pub is_new : ProxyStatus → Bool
is_new new = true
is_new pending = false
is_new active = false
is_new quarantined = false
is_new dead = false

abbrev pub is_dead : ProxyStatus → Bool
is_dead dead = true
is_dead new = false
is_dead pending = false
is_dead active = false
is_dead quarantined = false

-- A candidate with its key, which is `dedupeKeyHash(proxy)`, less what the rows of this model leave
-- out; `host` is what the pipeline tests.
pub record Candidate : Type 0 where
  pub key : Text
  pub host : Text
  pub protocol : ProxyProtocol
  pub anonymity : Option AnonymityLevel

-- `unique`: the first candidate of each key, in their order.
unfoldable pub first_by_key : List Candidate → List Candidate
first_by_key [] = []
first_by_key (c ∷ rest) = c ∷ keep (λ d. not (text_eq d.key c.key)) (first_by_key rest)

-- The limits and times of `selectValidationQueue`.
pub record QueueOptions : Type 0 where
  pub new_limit : ℕ
  pub quarantine_limit : ℕ
  pub recheck_limit : ℕ
  pub recheck_after_minutes : ℕ
  pub now : ℕ

pub record UpsertResult : Type 0 where
  pub total : ℕ
  pub inserted : ℕ
  pub touched : ℕ

-- `a ASC`, in which NULL comes first: whether `a` stands behind `b`.
abbrev pub is_after : Option ℕ → Option ℕ → Bool
is_after none b = false
is_after (some a) none = true
is_after (some a) (some b) = ltb b a

module _ (N : Number) where
  -- ORDER BY, by insertion; `behind r s` says that `r` stands behind `s`.
  unfoldable pub insert_ordered : (ProxyRow N → ProxyRow N → Bool) → ProxyRow N → Table N → Table N
  insert_ordered behind r [] = r ∷ []
  insert_ordered behind r (s ∷ t) =
      let rest = insert_ordered behind r t in if behind r s then s ∷ rest else r ∷ s ∷ t

  unfoldable pub order_by : (ProxyRow N → ProxyRow N → Bool) → Table N → Table N
  unfolding insert_ordered
  order_by behind [] = []
  order_by behind (r ∷ t) = insert_ordered behind r (order_by behind t)

  abbrev pub by_age : ProxyRow N → ProxyRow N → Bool
  by_age r s = ltb s.id r.id

  abbrev pub by_last_check : ProxyRow N → ProxyRow N → Bool
  by_last_check r s = is_after r.last_checked_at s.last_checked_at

  abbrev pub is_recheckable : QueueOptions → ProxyRow N → Bool
  is_recheckable options r =
      is_active r.status && is_stale options.recheck_after_minutes options.now r.last_checked_at

  -- The three statements of `selectValidationQueue`.
  abbrev pub fresh_rows : QueueOptions → Table N → Table N
  fresh_rows options t =
      take options.new_limit (order_by by_age (select_where N (λ r. is_new r.status) t))

  abbrev pub quarantined_rows : QueueOptions → Table N → Table N
  quarantined_rows options t =
      take options.quarantine_limit
        (order_by by_last_check (select_where N (λ r. is_quarantined r.status) t))

  abbrev pub stale_rows : QueueOptions → Table N → Table N
  stale_rows options t =
      take options.recheck_limit
        (order_by by_last_check (select_where N (is_recheckable options) t))

  -- The loop that merges the rows; `seen` is the set of the ids so far.
  unfoldable pub merge_rows : List ℕ → Table N → Table N
  merge_rows seen [] = []
  merge_rows seen (r ∷ t) =
      let skipped = merge_rows seen t in
      let taken = merge_rows (r.id ∷ seen) t in if among N seen r then skipped else r ∷ taken

  unfoldable pub select_validation_queue : QueueOptions → Table N → Table N
  unfolding merge_rows order_by
  select_validation_queue options t =
      merge_rows [] (fresh_rows options t ++ (quarantined_rows options t ++ stale_rows options t))

  select_chunks : List (List ℕ) → Table N → Table N
  select_chunks [] t = []
  select_chunks (chunk ∷ rest) t = select_where N (among N chunk) t ++ select_chunks rest t

  -- `getByIds`, UPSERT_CHUNK ids to a statement.
  unfoldable pub get_by_ids : List ℕ → Table N → Table N
  unfolding select_chunks
  get_by_ids is t = select_chunks (chunks 400 is) t

  -- `score DESC, latency_ms ASC`
  abbrev pub by_score : ProxyRow N → ProxyRow N → Bool
  by_score r s = N.lt r.score s.score

  abbrev latency_after : Option N.Num → Option N.Num → Bool
  latency_after none b = false
  latency_after (some a) none = true
  latency_after (some a) (some b) = N.lt b a

  abbrev by_score_and_latency : ProxyRow N → ProxyRow N → Bool
  by_score_and_latency r s =
      by_score r s || (not (by_score s r) && latency_after r.latency_ms s.latency_ms)

  -- `selectServiceCandidates` without `ids`, as the pipeline calls it.
  unfoldable pub select_service_candidates : ℕ → N.Num → ℕ → ℕ → Table N → Table N
  unfolding order_by
  select_service_candidates limit min_score recheck_after_minutes now t = take limit (
      order_by by_score_and_latency (
        select_where N
          (λ r.
            (is_active r.status && N.le min_score r.score)
            && is_stale recheck_after_minutes now r.service_checked_at)
          t))

  abbrev pub has_key : Text → ProxyRow N → Bool
  has_key key r = text_eq r.dedupe_key key

  -- ON CONFLICT (dedupe_key) DO UPDATE
  abbrev pub seen_again : Text → ProxyRow N → ProxyRow N
  seen_again cycle r = record r {
    last_cycle_id = some cycle;
    status = if is_dead r.status then new else r.status;
  }

  -- The row id that the database gives.
  abbrev next_id : Table N → ℕ
  next_id [] = 1
  next_id (r ∷ t) = max (r.id + 1) (next_id t)

  -- INSERT, with the defaults of the table.
  abbrev pub new_row : Text → ℕ → Candidate → ProxyRow N
  new_row cycle id c = record {
    id = id;
    dedupe_key = c.key;
    protocol = c.protocol;
    status = new;
    validation_status = ValidationStatus.unchecked;
    service_status = ServiceStatus.untested;
    score = N.ratio 0 1;
    latency_ms = none;
    service_latency_ms = none;
    service_checked_at = none;
    service_fail_reason = none;
    last_error_code = none;
    anonymity = or_default c.anonymity AnonymityLevel.unknown;
    last_cycle_id = some cycle;
    last_checked_at = none;
    last_passed_at = none;
    consecutive_failures = 0;
    check_count = 0;
    pass_count = 0;
    notes = none;
  }

  unfoldable pub upsert_one : Text → Candidate → Table N → Table N
  upsert_one cycle c t =
      if any (has_key c.key) t
      then update_where N (has_key c.key) (seen_again cycle) t
      else t ++ (new_row cycle (next_id t) c ∷ [])

  upsert_all : Text → List Candidate → Table N → Table N
  unfolding upsert_one
  upsert_all cycle [] t = t
  upsert_all cycle (c ∷ rest) t = upsert_all cycle rest (upsert_one cycle c t)

  -- The keys that the SELECT statements do not find.
  count_unknown : List Candidate → Table N → ℕ
  count_unknown [] t = 0
  count_unknown (c ∷ rest) t = (if any (has_key c.key) t then 0 else 1) + count_unknown rest t

  unfoldable pub upsert_candidates : Text → List Candidate → Table N → Table N × UpsertResult
  unfolding upsert_all count_unknown first_by_key
  upsert_candidates cycle candidates t =
      let unique = first_by_key candidates in
      let inserted = count_unknown unique t in
      (
        upsert_all cycle unique t,
        record { total = length unique; inserted = inserted; touched = length unique - inserted },
      )
