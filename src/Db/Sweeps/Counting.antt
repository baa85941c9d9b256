-- ===== src/Db/Sweeps/Counting.antt =====
-- Counting rows through updates and orders.
use proxy_pulse_crunchyroll.Prelude.{
  ℕ, zero, suc, ◌+◌, ◌≤◌, ◌≡◌, refl, ap, ◌∙◌, subst, inl, inr, Bool, true, false, not, ◌&&◌, List,
  [], ◌∷◌, arith, ◌==◌, if◌then◌else◌, ==_iff, Bool-cases, length, take, All,
}
use proxy_pulse_crunchyroll.Numbers.{Number}
use proxy_pulse_crunchyroll.Db.{ProxyRow}
use proxy_pulse_crunchyroll.Db.Sweeps.{
  Table, update_where, count_where, select_where, ids, insert_row, demotion_order, demoted_before,
  among,
}

abbrev pub count : ℕ → List ℕ → ℕ
count i [] = 0
count i (x ∷ xs) = (if x == i then 1 else 0) + count i xs

abbrev pub one_if : Bool → ℕ
one_if b = if b then 1 else 0

module _ (N : Number) where
  pub length-update_where :
      (test : ProxyRow N → Bool) (change : ProxyRow N → ProxyRow N) (t : Table N)
      → length (update_where N test change t) ≡ length t
  unfolding update_where
  length-update_where test change [] = refl
  length-update_where test change (r ∷ t) = ap suc (length-update_where test change t)

  pub ids-update_where :
      (test : ProxyRow N → Bool) (change : ProxyRow N → ProxyRow N) (t : Table N)
      → ((r : ProxyRow N) → (change r).id ≡ r.id)
      → ids N (update_where N test change t) ≡ ids N t
  unfolding update_where
  ids-update_where test change [] h = refl
  ids-update_where test change (r ∷ t) h = elim (Bool-cases (test r)) [
    | inl yes' ↦ rw (yes', h r, ids-update_where test change t h) refl
    | inr no' ↦ rw (no', ids-update_where test change t h) refl
  ]

  -- A count after an update is the count, before it, of the rows that will satisfy the test.
  pub count_where-update_where :
      (test p q : ProxyRow N → Bool) (change : ProxyRow N → ProxyRow N) (t : Table N)
      → ((r : ProxyRow N) → p (if test r then change r else r) ≡ q r)
      → count_where N p (update_where N test change t) ≡ count_where N q t
  unfolding update_where
  count_where-update_where test p q change [] h = refl
  count_where-update_where test p q change (r ∷ t) h =
      rw (h r, count_where-update_where test p q change t h) refl

  pub All-update_where :
      (test : ProxyRow N → Bool) (change : ProxyRow N → ProxyRow N) (P Q : ProxyRow N → Type 0)
      (t : Table N)
      → ((r : ProxyRow N) → P r → Q (if test r then change r else r))
      → All P t
      → All Q (update_where N test change t)
  unfolding update_where
  All-update_where test change P Q [] h a = tt
  All-update_where test change P Q (r ∷ t) h (a, as') =
      (h r a, All-update_where test change P Q t h as')

  pub count_where-select_where :
      (p q : ProxyRow N → Bool) (t : Table N)
      → count_where N q (select_where N p t) ≡ count_where N (λ r. p r && q r) t
  count_where-select_where p q [] = refl
  count_where-select_where p q (r ∷ t) = ground (arith, count_where-select_where p q t)

  pub length-select_where :
      (p : ProxyRow N → Bool) (t : Table N) → length (select_where N p t) ≡ count_where N p t
  length-select_where p [] = refl
  length-select_where p (r ∷ t) = ground (arith, length-select_where p t)

  pub count_where-split :
      (p q : ProxyRow N → Bool) (t : Table N)
      → count_where N (λ r. p r && q r) t + count_where N (λ r. p r && not (q r)) t
        ≡ count_where N p t
  count_where-split p q [] = refl
  count_where-split p q (r ∷ t) = ground (arith, count_where-split p q t)

  -- Selecting, ordering and cutting never make an id occur more often.
  pub count-ids_select :
      (i : ℕ) (p : ProxyRow N → Bool) (t : Table N)
      → count i (ids N (select_where N p t)) ≤ count i (ids N t)
  count-ids_select i p [] = omega arith
  count-ids_select i p (r ∷ t) = ground (arith, count-ids_select i p t)

  count-ids_insert :
      (i : ℕ) (r : ProxyRow N) (t : Table N)
      → count i (ids N (insert_row N r t)) ≡ one_if (r.id == i) + count i (ids N t)
  unfolding insert_row
  count-ids_insert i r [] = refl
  count-ids_insert i r (s ∷ t) = elim (Bool-cases (demoted_before N r s)) [
    | inl first ↦ rw first refl
    | inr later ↦ rw later (omega (arith, count-ids_insert i r t))
  ]

  pub count-ids_order :
      (i : ℕ) (t : Table N) → count i (ids N (demotion_order N t)) ≡ count i (ids N t)
  unfolding demotion_order
  count-ids_order i [] = refl
  count-ids_order i (r ∷ t) =
      count-ids_insert i r (demotion_order N t)
      ∙ ap (λ n. one_if (r.id == i) + n) (count-ids_order i t)

  length-insert_row : (r : ProxyRow N) (t : Table N) → length (insert_row N r t) ≡ suc (length t)
  unfolding insert_row
  length-insert_row r [] = refl
  length-insert_row r (s ∷ t) = elim (Bool-cases (demoted_before N r s)) [
    | inl first ↦ rw first refl
    | inr later ↦ rw later (ap suc (length-insert_row r t))
  ]

  pub length-demotion_order : (t : Table N) → length (demotion_order N t) ≡ length t
  unfolding demotion_order
  length-demotion_order [] = refl
  length-demotion_order (r ∷ t) =
      length-insert_row r (demotion_order N t) ∙ ap suc (length-demotion_order t)

  pub count-ids-take : (i n : ℕ) (t : Table N) → count i (ids N (take n t)) ≤ count i (ids N t)
  count-ids-take i zero t = omega arith
  count-ids-take i (suc n) [] = omega arith
  count-ids-take i (suc n) (r ∷ t) = omega (arith, count-ids-take i n t)

  pub length-ids : (t : Table N) → length (ids N t) ≡ length t
  length-ids [] = refl
  length-ids (r ∷ t) = ap suc (length-ids t)

  count_where-among_none : (t : Table N) → count_where N (among N []) t ≡ 0
  count_where-among_none [] = refl
  count_where-among_none (r ∷ t) = omega (arith, count_where-among_none t)

  among_of_count : (is : List ℕ) (r : ProxyRow N) → count r.id is ≡ 0 → among N is r ≡ false
  among_of_count [] r h = refl
  among_of_count (i ∷ is) r h = ground (arith, among_of_count is r)

  count_where-among_cons :
      (i : ℕ) (is : List ℕ) (t : Table N)
      → count i is ≡ 0
      → count_where N (among N (i ∷ is)) t ≡ count i (ids N t) + count_where N (among N is) t
  count_where-among_cons i is [] h = refl
  count_where-among_cons i is (r ∷ t) h = elim (Bool-cases (i == r.id)) [
    | inl same ↦
        let e : i ≡ r.id = (==_iff i r.id).0 same in
        let n = among_of_count is r (subst (λ k. count k is ≡ 0) e h) in
        ground (arith, count_where-among_cons i is t h)
    | inr other ↦ ground (arith, count_where-among_cons i is t h)
  ]

  -- In a table of distinct ids, as many rows lie among a list of ids as the list has entries, if
  -- each of them occurs in the table at least as often as in the list.
  pub count_where-among :
      (is : List ℕ) (t : Table N)
      → ((i : ℕ) → count i (ids N t) ≤ 1)
      → ((i : ℕ) → count i is ≤ count i (ids N t))
      → count_where N (among N is) t ≡ length is
  count_where-among [] t once sub = count_where-among_none t
  count_where-among (i ∷ is) t once sub =
      let at_i = sub i in
      let one = once i in
      let self : (i == i) ≡ true = ground arith in
      let zero_left : count i is ≡ 0 = ground arith in
      let rest = count_where-among is t once (λ j. weaken j (sub j)) in
      omega (arith, count_where-among_cons i is t zero_left, ap one_if self)
    where
      weaken : (j : ℕ) → count j (i ∷ is) ≤ count j (ids N t) → count j is ≤ count j (ids N t)
      weaken j h = omega arith
