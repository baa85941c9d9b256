-- ===== src/Db/Queries/Selected.antt =====
-- db/src/repositories/proxies.ts: what selectValidationQueue selects.
use proxy_pulse_crunchyroll.Prelude.{
  ℕ, ◌+◌, ◌≤◌, ◌≡◌, subst, inl, inr, Bool, true, false, ◌&&◌, List, [], ◌∷◌, ◌++◌, arith, ◌==◌,
  if◌then◌else◌, ==_iff, Bool-cases, if-cases, length, take, any, length-append, length-take, All,
  All-append, All-take,
}
use proxy_pulse_crunchyroll.Numbers.{Number}
use proxy_pulse_crunchyroll.Types.{ProxyStatus, is_active, is_quarantined}
use proxy_pulse_crunchyroll.Db.{ProxyRow}
use proxy_pulse_crunchyroll.Db.Sweeps.{Table, select_where, ids, among}
use proxy_pulse_crunchyroll.Db.Sweeps.Counting.{count}
use proxy_pulse_crunchyroll.Db.Writes.{is_claimable}
use proxy_pulse_crunchyroll.Db.Queries.{
  QueueOptions, is_new, insert_ordered, order_by, by_age, by_last_check, is_recheckable, fresh_rows,
  quarantined_rows, stale_rows, merge_rows, select_validation_queue,
}

module _ (N : Number) where
  -- How often an id may still be taken.
  abbrev left_of : List ℕ → ℕ → ℕ
  left_of seen i = if any (λ j. j == i) seen then 0 else 1

  merge_rows-count :
      (seen : List ℕ) (t : Table N) (i : ℕ) → count i (ids N (merge_rows N seen t)) ≤ left_of seen i
  unfolding merge_rows
  merge_rows-count seen [] i = omega arith
  merge_rows-count seen (r ∷ t) i =
      let skipped = merge_rows-count seen t i in
      let taken = merge_rows-count (r.id ∷ seen) t i in
      if-cases (λ rows. count i (ids N rows) ≤ left_of seen i) (among N seen r) _ _ (λ _. skipped)
        λ other. elim (Bool-cases (r.id == i)) [
          | inl same ↦
              let free : any (λ j. j == i) seen ≡ false =
                subst (λ x. any (λ j. j == x) seen ≡ false) ((==_iff r.id i).0 same) other in
              rw (same, free) (let none_left = rw same at taken in omega arith)
          | inr apart ↦ rw apart (let rest = rw apart at taken in omega arith)
        ]

  length-merge_rows : (seen : List ℕ) (t : Table N) → length (merge_rows N seen t) ≤ length t
  unfolding merge_rows
  length-merge_rows seen [] = omega arith
  length-merge_rows seen (r ∷ t) =
      let skipped = length-merge_rows seen t in
      let taken = length-merge_rows (r.id ∷ seen) t in
      if-cases (λ rows. length rows ≤ length (r ∷ t)) (among N seen r) (merge_rows N seen t)
        (r ∷ merge_rows N (r.id ∷ seen) t) (λ _. omega arith) (λ _. omega arith)

  module _ (P : ProxyRow N → Type 0) where
    merge_rows-All : (seen : List ℕ) (t : Table N) → All P t → All P (merge_rows N seen t)
    unfolding merge_rows
    merge_rows-All seen [] h = tt
    merge_rows-All seen (r ∷ t) (h, hs) =
        if-cases (All P) (among N seen r) _ _ (λ _. merge_rows-All seen t hs)
          λ _. (h, merge_rows-All (r.id ∷ seen) t hs)

    insert_ordered-All :
        (behind : ProxyRow N → ProxyRow N → Bool) (r : ProxyRow N) (t : Table N)
        → P r
        → All P t
        → All P (insert_ordered N behind r t)
    unfolding insert_ordered
    insert_ordered-All behind r [] h hs = (h, tt)
    insert_ordered-All behind r (s ∷ t) h (g, gs) =
        if-cases (All P) (behind r s) _ _ (λ _. (g, insert_ordered-All behind r t h gs))
          λ _. (h, (g, gs))

    order_by-All :
        (behind : ProxyRow N → ProxyRow N → Bool) (t : Table N)
        → All P t
        → All P (order_by N behind t)
    unfolding order_by
    order_by-All behind [] h = tt
    order_by-All behind (r ∷ t) (h, hs) = insert_ordered-All behind r _ h (order_by-All behind t hs)

  abbrev Selected : (ProxyRow N → Type 0) → ProxyRow N → Type 0
  Selected P r = P r × (is_claimable r.status ≡ true)

  select_where-All :
      (P : ProxyRow N → Type 0) (test : ProxyRow N → Bool) (t : Table N)
      → ((r : ProxyRow N) → test r ≡ true → is_claimable r.status ≡ true)
      → All P t
      → All (Selected P) (select_where N test t)
  select_where-All P test [] c h = tt
  select_where-All P test (r ∷ t) c (h, hs) =
      if-cases (All (Selected P)) (test r) _ _
        (λ passed. ((h, c r passed), select_where-All P test t c hs))
        λ _. select_where-All P test t c hs

  -- One of the three statements.
  statement-All :
      (P : ProxyRow N → Type 0) (behind : ProxyRow N → ProxyRow N → Bool) (test : ProxyRow N → Bool)
      (limit : ℕ) (t : Table N)
      → ((r : ProxyRow N) → test r ≡ true → is_claimable r.status ≡ true)
      → All P t
      → All (Selected P) (take limit (order_by N behind (select_where N test t)))
  statement-All P behind test limit t c h =
      All-take (Selected P) limit _
        (order_by-All (Selected P) behind _ (select_where-All P test t c h))

  new-claimable : (s : ProxyStatus) → is_new s ≡ true → is_claimable s ≡ true
  new-claimable s h = ground arith

  quarantined-claimable : (s : ProxyStatus) → is_quarantined s ≡ true → is_claimable s ≡ true
  quarantined-claimable s h = ground arith

  active-claimable :
      (s : ProxyStatus) (b : Bool) → (is_active s && b) ≡ true → is_claimable s ≡ true
  active-claimable s b h = ground arith

  -- A validation queue.
  pub record IsQueue (options : QueueOptions) (P : ProxyRow N → Type 0) (rows : Table N)
      : Type 0 where
    pub once : (i : ℕ) → count i (ids N rows) ≤ 1
    pub short : length rows ≤ options.new_limit + options.quarantine_limit + options.recheck_limit
    pub claimable : All (λ r. P r × (is_claimable r.status ≡ true)) rows

  -- The validation queue holds no id twice, and at most as many rows as its three limits allow
  -- together; each of its rows can be claimed, and has whatever property all rows of the table have,
  -- such as being one of them.
  pub select_validation_queue-IsQueue :
      (options : QueueOptions) (P : ProxyRow N → Type 0) (t : Table N)
      → All P t
      → IsQueue options P (select_validation_queue N options t)
  unfolding select_validation_queue
  select_validation_queue-IsQueue options P t h =
      let fresh = fresh_rows N options t in
      let quarantined = quarantined_rows N options t in
      let stale = stale_rows N options t in
      record {
        once = λ i. merge_rows-count [] (fresh ++ (quarantined ++ stale)) i;
        short = omega (
          arith,
          length-merge_rows [] (fresh ++ (quarantined ++ stale)),
          length-append fresh (quarantined ++ stale),
          length-append quarantined stale,
          length-take options.new_limit
              (order_by N (by_age N) (select_where N (λ r. is_new r.status) t)),
          length-take options.quarantine_limit
              (order_by N (by_last_check N) (select_where N (λ r. is_quarantined r.status) t)),
          length-take options.recheck_limit
              (order_by N (by_last_check N) (select_where N (is_recheckable N options) t)),
        );
        claimable = merge_rows-All (Selected P) [] _ (
            All-append (Selected P) fresh _
              (statement-All P (by_age N) _ _ t (λ r. new-claimable r.status) h)
              (All-append (Selected P) quarantined stale
                (statement-All P (by_last_check N) _ _ t (λ r. quarantined-claimable r.status) h)
                (statement-All P (by_last_check N) _ _ t (λ r. active-claimable r.status _) h)));
      }
