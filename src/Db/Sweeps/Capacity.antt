-- ===== src/Db/Sweeps/Capacity.antt =====
-- The pool's capacity: how many rows the demotion leaves in the pool.
use proxy_pulse_crunchyroll.Prelude.{
  ℕ, ◌+◌, ◌-◌, ◌≤◌, min, ◌≡◌, refl, sym, ◌∙◌, inl, inr, not, ◌&&◌, List, arith, leb, if◌then◌else◌,
  Bool-cases, length, take, length-take,
}
use proxy_pulse_crunchyroll.Numbers.{Number}
use proxy_pulse_crunchyroll.Db.{ProxyRow, pool_capacity}
use proxy_pulse_crunchyroll.Db.Sweeps.{
  Table, count_where, select_where, ids, member, among, overflow_ids, demotion_order,
  enforce_pool_capacity, quarantine_row,
}
use proxy_pulse_crunchyroll.Db.Sweeps.Counting.{
  count, count_where-update_where, count_where-select_where, length-select_where, count_where-split,
  count-ids_select, count-ids_order, length-demotion_order, count-ids-take, length-ids,
  count_where-among, ids-update_where,
}

-- Every id occurs once at most, as a primary key does.
abbrev pub HasKeys : (N : Number) → Table N → Type 0
HasKeys N t = (i : ℕ) → count i (ids N t) ≤ 1

module _ (N : Number) where
  count-overflow_ids :
      (i n : ℕ) (t : Table N)
      → count i (overflow_ids N n t) ≤ count i (ids N (select_where N (member N) t))
  unfolding overflow_ids
  count-overflow_ids i n t = omega (
    arith,
    count-ids-take N i n (demotion_order N (select_where N (member N) t)),
    count-ids_order N i (select_where N (member N) t),
  )

  length-overflow_ids :
      (n : ℕ) (t : Table N) → n ≤ count_where N (member N) t → length (overflow_ids N n t) ≡ n
  unfolding overflow_ids
  length-overflow_ids n t h =
      let s = select_where N (member N) t in
      omega (
        arith,
        length-ids N (take n (demotion_order N s)),
        length-take n (demotion_order N s),
        length-demotion_order N s,
        length-select_where N (member N) t,
      )

  module _ (t : Table N) (keys : HasKeys N t) (n : ℕ) (fits : n ≤ count_where N (member N) t) where
    selected_among : count_where N (λ r. member N r && among N (overflow_ids N n t) r) t ≡ n
    selected_among =
        let s = select_where N (member N) t in
        sym (count_where-select_where N (member N) (among N (overflow_ids N n t)) t)
        ∙ (count_where-among N (overflow_ids N n t) s
              (λ i. omega (arith, keys i, count-ids_select N i (member N) t))
              (λ i. count-overflow_ids i n t)
            ∙ length-overflow_ids n t fits)

    table_among : count_where N (among N (overflow_ids N n t)) t ≡ n
    table_among =
        count_where-among N (overflow_ids N n t) t keys
          (λ i. omega (arith, count-overflow_ids i n t, count-ids_select N i (member N) t))
        ∙ length-overflow_ids n t fits

  member_after :
      (is : List ℕ) (r : ProxyRow N)
      → member N (if among N is r then quarantine_row N pool_capacity r else r)
        ≡ (member N r && not (among N is r))
  member_after is r = ground arith

  -- In a table of distinct ids, the demotion leaves as many members as there were, or the capacity
  -- where that is less; it reports the members that it has demoted, and no row or id is lost.
  pub enforce_pool_capacity_members :
      (max_active : ℕ) (t : Table N)
      → HasKeys N t
      → let r = enforce_pool_capacity N max_active t in
        (count_where N (member N) r.0 ≡ min (count_where N (member N) t) max_active)
        × (r.1 + count_where N (member N) r.0 ≡ count_where N (member N) t)
        × (ids N r.0 ≡ ids N t)
  unfolding enforce_pool_capacity
  enforce_pool_capacity_members max_active t keys =
      elim (Bool-cases (leb (count_where N (member N) t) max_active)) [
        | inl fits ↦ rw fits (ground arith, omega arith, refl)
        | inr over ↦
            let n = count_where N (member N) t - max_active in
            let is = overflow_ids N n t in
            let fewer : n ≤ count_where N (member N) t = omega arith in
            let gone = selected_among t keys n fewer in
            let told = table_among t keys n fewer in
            let split = count_where-split N (member N) (among N is) t in
            let after =
              count_where-update_where N (among N is) (member N)
                (λ r. member N r && not (among N is r)) (quarantine_row N pool_capacity) t
                (member_after is) in
            let most : max_active ≤ count_where N (member N) t = ground arith in
            rw over (
              omega arith,
              omega arith,
              ids-update_where N (among N is) (quarantine_row N pool_capacity) t (λ r. refl),
            )
      ]
