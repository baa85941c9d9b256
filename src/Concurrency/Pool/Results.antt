-- ===== src/Concurrency/Pool/Results.antt =====
-- Whatever the order in which the workers settle: the bound on the work in flight, one result for
-- each item, and the end of the batch.
use proxy_pulse_crunchyroll.Prelude.{
  ℕ, zero, suc, ◌+◌, ◌-◌, ◌*◌, ◌<◌, ◌≤◌, min, max, ◌≡◌, refl, ap, ◌⊎◌, inl, inr, List, [], ◌∷◌,
  ◌++◌, arith, ltb, ◌==◌, if◌then◌else◌, Bool-cases, length, length-append,
}
use proxy_pulse_crunchyroll.Concurrency.Pool.{
  Settled, Batch, Step, take_item, skip_item, settle_item, retire, Steps, here, next, start,
  concurrency_of, IsDone, aborted,
}

abbrev pub count : ℕ → List ℕ → ℕ
count i [] = 0
count i (x ∷ xs) = if x == i then suc (count i xs) else count i xs

count-append : (i : ℕ) (xs ys : List ℕ) → count i (xs ++ ys) ≡ count i xs + count i ys
count-append i [] ys = omega arith
count-append i (x ∷ xs) ys = ground (arith, count-append i xs ys)

module _ {E R : Type 0} where
  abbrev pub indices : List (ℕ × Settled E R) → List ℕ
  indices [] = []
  indices ((i, r) ∷ rs) = i ∷ indices rs

  -- The items that have been handed out.
  abbrev pub handed : Batch E R → ℕ
  handed s = min s.cursor s.total

  pub record Inv (limit total : ℕ) (s : Batch E R) : Type 0 where
    pub total_kept : s.total ≡ total
    pub bound : s.idle + length s.in_flight ≤ concurrency_of limit total
    pub retired : (s.idle + length s.in_flight ≡ concurrency_of limit total) ⊎ (s.total ≤ s.cursor)
    pub taken : length s.in_flight ≤ handed s
    pub once :
        (i : ℕ)
        → count i s.in_flight + count i (indices s.results) ≡ (if ltb i (handed s) then 1 else 0)

  start-Inv : (limit total : ℕ) → Inv limit total (start E R limit total)
  start-Inv limit total = record {
    total_kept = refl;
    bound = omega arith;
    retired = inl (omega arith);
    taken = omega arith;
    once = λ i. ground arith;
  }

  Step-Inv : (limit total : ℕ) {s t : Batch E R} → Step s t → Inv limit total s → Inv limit total t
  Step-Inv limit total {s} (take_item h k) v = record {
    total_kept = v.total_kept;
    bound = ground arith;
    retired = ground arith;
    taken = ground arith;
    once = λ i. (let o = v.once i in ground arith);
  }
  Step-Inv limit total {s} (skip_item h k) v = record {
    total_kept = v.total_kept;
    bound = ground arith;
    retired = ground arith;
    taken = ground arith;
    once = λ i. (let o = v.once i in ground arith);
  }
  Step-Inv limit total {s} (settle_item before after index r e) v =
      let n = ap length e in
      let l = length-append before (index ∷ after) in
      let m = length-append before after in
      record {
        total_kept = v.total_kept;
        bound = omega (arith, v.bound);
        retired = ground arith;
        taken = omega (arith, v.taken);
        once = λ i.
            (let o = v.once i in
              let c = ap (count i) e in
              ground (arith, count-append i before (index ∷ after), count-append i before after));
      }
  Step-Inv limit total {s} (retire h k) v = record {
    total_kept = v.total_kept;
    bound = ground arith;
    retired = ground arith;
    taken = ground arith;
    once = λ i. (let o = v.once i in ground arith);
  }

  Steps-Inv :
      (limit total : ℕ) {s t : Batch E R} → Inv limit total s → Steps s t → Inv limit total t
  Steps-Inv limit total v here = v
  Steps-Inv limit total v (next r st) = Step-Inv limit total st (Steps-Inv limit total v r)

  -- The runners take `n` items before any worker settles.
  take_items :
      (limit total n : ℕ)
      → n ≤ min (max 1 limit) total
      → (t : Batch E R) × Steps (start E R limit total) t
        × (length t.in_flight ≡ n)
        × (t.cursor ≡ n)
        × (t.total ≡ total)
        × (t.idle + n ≡ concurrency_of limit total)
  take_items limit total zero h = (start E R limit total, here, refl, refl, refl, omega arith)
  take_items limit total (suc n) h =
      let (t, r, f, c, k, i) = take_items limit total n (omega arith) in
      let many : suc n ≤ concurrency_of limit total = ground arith in
      (_, next r (take_item (omega arith) (omega arith)), omega arith, omega arith, k, omega arith)

  -- In every state that a batch reaches, no more items are in flight than `limit`, or one where the
  -- limit is 0, and no more than there are items; and a state is reached in which as many are in flight
  -- as both bounds allow.
  pub in_flight_bound :
      (limit total : ℕ) (t : Batch E R)
      → Steps (start E R limit total) t
      → (length t.in_flight ≤ max 1 limit)
        × (length t.in_flight ≤ total)
        × ((u : Batch E R) × Steps (start E R limit total) u
            × (length u.in_flight ≡ min (max 1 limit) total))
  in_flight_bound limit total t r =
      let v = Steps-Inv limit total (start-Inv limit total) r in
      let k = v.total_kept in
      let f = v.taken in
      let b = v.bound in
      let (u, s, n, _, _, _) = take_items limit total (min (max 1 limit) total) (omega arith) in
      (ground arith, omega arith, (u, s, n))

  -- When all runners have returned, every index below `total` has exactly one result, and no
  -- other index has any.
  pub done_results :
      (limit total : ℕ) (t : Batch E R)
      → Steps (start E R limit total) t
      → IsDone t
      → (i : ℕ) → count i (indices t.results) ≡ (if ltb i total then 1 else 0)
  done_results limit total t r (none_idle, none_flying) i =
      let v = Steps-Inv limit total (start-Inv limit total) r in
      let o = v.once i in
      let n = ap length none_flying in
      let c = ap (count i) none_flying in let w = v.retired in let k = v.total_kept in ground arith

  -- What is left to do; every step lowers it.
  abbrev pub left : Batch E R → ℕ
  left s = 3 * (s.total - s.cursor) + s.idle + 2 * length s.in_flight

  Step-left : {s t : Batch E R} → Step s t → left t < left s
  Step-left (take_item h k) = omega arith
  Step-left (skip_item h k) = omega arith
  Step-left (settle_item before after index r e) =
      omega (arith, ap length e, length-append before (index ∷ after), length-append before after)
  Step-left (retire h k) = omega arith

  can-Step :
      (s : Batch E R) (flying : List ℕ)
      → s.in_flight ≡ flying
      → IsDone s ⊎ ((t : Batch E R) × Step s t)
  can-Step s (i ∷ is) e = inr (_, settle_item [] is i aborted e)
  can-Step s [] e = elim (Bool-cases (s.idle == 0)) [
    | inl none_idle ↦ inl (ground arith, e)
    | inr some_idle ↦ elim (Bool-cases (ltb s.cursor s.total)) [
      | inl more ↦ inr (_, take_item (ground arith) (ground arith))
      | inr over ↦ inr (_, retire (ground arith) (ground arith))
    ]
  ]

  -- A batch that is not done can always go on, and every step lowers a measure: whatever the
  -- order, a batch whose workers settle is done after finitely many steps.
  pub batch_ends :
      (s : Batch E R)
      → (IsDone s ⊎ ((t : Batch E R) × Step s t)) × ((t : Batch E R) → Step s t → left t < left s)
  batch_ends s = (can-Step s s.in_flight refl, λ t st. Step-left st)
