-- ===== src/Manager/Finalize.antt =====
-- worker/src/pool/manager.ts: finalize, the sweeps after a cycle.
use proxy_pulse_crunchyroll.Prelude.{
  ℕ, ◌+◌, ◌<◌, ◌≤◌, ◌≡◌, refl, ◌∙◌, ◌⊎◌, inl, inr, Bool, true, false, [], ◌∷◌, arith, leb,
  if◌then◌else◌, Bool-cases, All,
}
use proxy_pulse_crunchyroll.Text.{Text}
use proxy_pulse_crunchyroll.Numbers.{Number}
use proxy_pulse_crunchyroll.Types.{is_active}
use proxy_pulse_crunchyroll.Db.{ProxyRow, consecutive_failures}
use proxy_pulse_crunchyroll.Db.Sweeps.{
  Table, count_where, ids, member, is_stale, is_pending, expire_stale, quarantine_failures,
  enforce_pool_capacity, release_orphaned_pending, release_foreign_pending, stale_member,
  expire_row, failing_member, quarantine_row, orphaned, foreign, release_row, among,
}
use proxy_pulse_crunchyroll.Db.Sweeps.Counting.{
  count_where-update_where, ids-update_where, All-update_where,
}
use proxy_pulse_crunchyroll.Db.Sweeps.Capacity.{HasKeys, enforce_pool_capacity_members}
use proxy_pulse_crunchyroll.Manager.Records.{WorkerConfig}

pub record FinalizeSummary : Type 0 where
  pub expired : ℕ
  pub quarantined : ℕ
  pub demoted : ℕ
  pub released : ℕ
  pub pool_size : ℕ

module _ (N : Number) (w : WorkerConfig N) (cycle : Text) (now : ℕ) where
  -- The table after each of the first three sweeps.
  abbrev after_expiry : Table N → Table N
  after_expiry t = (expire_stale N (w.pool).ttl_minutes now t).0

  abbrev after_quarantine : Table N → Table N
  after_quarantine t = (quarantine_failures N (w.pool).max_consecutive_failures (after_expiry t)).0

  abbrev after_capacity : Table N → Table N
  after_capacity t = (enforce_pool_capacity N (w.pool).max_active (after_quarantine t)).0

  abbrev after_orphans : Table N → Table N
  after_orphans t = (release_orphaned_pending N cycle (after_capacity t)).0

  abbrev after_release : Table N → Table N
  after_release t = (release_foreign_pending N cycle (after_orphans t)).0

  unfoldable pub finalize : Table N → Table N × FinalizeSummary
  finalize t = (
    after_release t,
    record {
      expired = (expire_stale N (w.pool).ttl_minutes now t).1;
      quarantined = (quarantine_failures N (w.pool).max_consecutive_failures (after_expiry t)).1;
      demoted = (enforce_pool_capacity N (w.pool).max_active (after_quarantine t)).1;
      released =
          (release_orphaned_pending N cycle (after_capacity t)).1
          + (release_foreign_pending N cycle (after_orphans t)).1;
      pool_size = count_where N (member N) (after_release t);
    },
  )

  -- A member that has passed within the time to live and fails less than the threshold.
  abbrev pub IsHealthy : ProxyRow N → Type 0
  IsHealthy r =
      (is_stale (w.pool).ttl_minutes now r.last_passed_at ≡ false)
      × (r.consecutive_failures < (w.pool).max_consecutive_failures)

  abbrev Recent : ProxyRow N → Type 0
  Recent r =
      (is_active r.status ≡ false) ⊎ (is_stale (w.pool).ttl_minutes now r.last_passed_at ≡ false)

  abbrev HealthyMember : ProxyRow N → Type 0
  HealthyMember r = (is_active r.status ≡ false) ⊎ IsHealthy r

  -- What holds of a row after the sweeps: no claim is left, and each member is healthy.
  abbrev pub IsSettled : ProxyRow N → Type 0
  IsSettled r = (is_pending r.status ≡ false) × ((is_active r.status ≡ false) ⊎ IsHealthy r)

  expiry-Recent :
      (r : ProxyRow N)
      → Recent (if stale_member N (w.pool).ttl_minutes now r then expire_row N r else r)
  expiry-Recent r = ground arith

  quarantine-HealthyMember :
      (r : ProxyRow N)
      → Recent r
      → HealthyMember (
          if failing_member N (w.pool).max_consecutive_failures r
          then quarantine_row N consecutive_failures r
          else r)
  quarantine-HealthyMember r h = ground arith

  demotion-HealthyMember :
      (t : Table N)
      → All HealthyMember t
      → All HealthyMember (enforce_pool_capacity N (w.pool).max_active t).0
  unfolding enforce_pool_capacity
  demotion-HealthyMember t h =
      elim (Bool-cases (leb (count_where N (member N) t) (w.pool).max_active)) [
        | inl fits ↦ rw fits h
        | inr over ↦ rw over (
            All-update_where N (among N _) _ HealthyMember HealthyMember t
              (λ r k. ground (arith, k)) h)
      ]

  abbrev SettledOrForeign : ProxyRow N → Type 0
  SettledOrForeign r = HealthyMember r × (orphaned N cycle r ≡ false)

  release-SettledOrForeign :
      (r : ProxyRow N)
      → HealthyMember r
      → SettledOrForeign (if orphaned N cycle r then release_row N r else r)
  release-SettledOrForeign r h = ground arith

  release-IsSettled :
      (r : ProxyRow N)
      → SettledOrForeign r
      → IsSettled (if foreign N cycle r then release_row N r else r)
  release-IsSettled r (h, k) = ground arith

  All-Unit : (t : Table N) → All (λ r. Unit {0}) t
  All-Unit [] = tt
  All-Unit (r ∷ t) = (tt, All-Unit t)

  after_release-IsSettled : (t : Table N) → All IsSettled (after_release t)
  unfolding expire_stale quarantine_failures release_orphaned_pending release_foreign_pending
  after_release-IsSettled t =
      All-update_where N (foreign N cycle) (release_row N) SettledOrForeign IsSettled
        (after_orphans t) release-IsSettled
        (All-update_where N (orphaned N cycle) (release_row N) HealthyMember SettledOrForeign
          (after_capacity t) release-SettledOrForeign
          (demotion-HealthyMember (after_quarantine t) (
            All-update_where N (failing_member N (w.pool).max_consecutive_failures)
              (quarantine_row N consecutive_failures) Recent HealthyMember (after_expiry t)
              quarantine-HealthyMember
              (All-update_where N (stale_member N (w.pool).ttl_minutes now) (expire_row N)
                (λ r. Unit {0}) Recent t (λ r u. expiry-Recent r) (All-Unit t)))))

  -- The sweeps settle every row.
  pub finalize-IsSettled : (t : Table N) → All IsSettled (finalize t).0
  unfolding finalize
  finalize-IsSettled t = after_release-IsSettled t

  ids-after_quarantine : (t : Table N) → ids N (after_quarantine t) ≡ ids N t
  unfolding expire_stale quarantine_failures
  ids-after_quarantine t =
      ids-update_where N _ (quarantine_row N consecutive_failures) (after_expiry t) (λ r. refl)
      ∙ ids-update_where N _ (expire_row N) t (λ r. refl)

  released_member :
      (test : ProxyRow N → Bool) (r : ProxyRow N)
      → (test r ≡ true → is_pending r.status ≡ true)
      → member N (if test r then release_row N r else r) ≡ member N r
  released_member test r h = ground arith

  members-after_release :
      (t : Table N)
      → count_where N (member N) (after_release t) ≡ count_where N (member N) (after_capacity t)
  unfolding release_orphaned_pending release_foreign_pending
  members-after_release t =
      count_where-update_where N (foreign N cycle) (member N) (member N) (release_row N)
        (after_orphans t) (λ r. released_member (foreign N cycle) r (λ e. ground arith))
      ∙ count_where-update_where N (orphaned N cycle) (member N) (member N) (release_row N)
          (after_capacity t) (λ r. released_member (orphaned N cycle) r (λ e. ground arith))

  ids-after_release : (t : Table N) → ids N (after_release t) ≡ ids N (after_capacity t)
  unfolding release_orphaned_pending release_foreign_pending
  ids-after_release t =
      ids-update_where N _ (release_row N) (after_orphans t) (λ r. refl)
      ∙ ids-update_where N _ (release_row N) (after_capacity t) (λ r. refl)

  -- After the sweeps over a table of distinct ids no row is pending, every member has passed within
  -- the time to live and fails less than the threshold, the members are as many as the reported
  -- pool size and no more than the capacity, and every row is still there, in its place.
  pub finalize_settles :
      (t : Table N)
      → HasKeys N t
      → let r = finalize t in
        All IsSettled r.0
        × ((r.1).pool_size ≡ count_where N (member N) r.0)
        × ((r.1).pool_size ≤ (w.pool).max_active)
        × (ids N r.0 ≡ ids N t)
  unfolding finalize
  finalize_settles t keys =
      let same = ids-after_quarantine t in
      let (least, told, kept) =
        enforce_pool_capacity_members N (w.pool).max_active (after_quarantine t)
          (λ i. rw same (keys i)) in
      let m = members-after_release t in
      (after_release-IsSettled t, refl, omega arith, ids-after_release t ∙ (kept ∙ same))
