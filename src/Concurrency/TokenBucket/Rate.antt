-- ===== src/Concurrency/TokenBucket/Rate.antt =====
-- The rate that a token bucket enforces.
use proxy_pulse_crunchyroll.Prelude.{
  ℕ, ◌+◌, ◌-◌, ◌*◌, ◌≤◌, max, ◌≡◌, refl, ap, subst, inl, inr, Bool, true, false, List, [], ◌∷◌,
  arith, leb, ◌==◌, if◌then◌else◌, leb→le, Bool-cases,
}
use proxy_pulse_crunchyroll.Concurrency.TokenBucket.{TokenBucket, refill, try_take}

-- No more tokens than the capacity.
pub record IsBucket (b : TokenBucket) : Type 0 where
  pub full : b.tokens ≤ b.capacity * b.unit

-- A call of `tryTake`: the clock's reading and the count.
pub record Call : Type 0 where
  pub at : ℕ
  pub count : ℕ

-- The bucket after a history of calls, and the number of tokens that were granted.
unfoldable pub run_calls : List Call → TokenBucket → ℕ → TokenBucket × ℕ
run_calls [] b granted = (b, granted)
run_calls (c ∷ cs) b granted =
    run_calls cs (try_take c.at c.count b).0
      (if (try_take c.at c.count b).1 then granted + c.count else granted)

-- The latest reading of the clock, from a given time on.
abbrev pub latest : ℕ → List Call → ℕ
latest t [] = t
latest t (c ∷ cs) = latest (max t c.at) cs

latest-le : (t : ℕ) (cs : List Call) → t ≤ latest t cs
latest-le t [] = omega arith
latest-le t (c ∷ cs) = omega (arith, latest-le (max t c.at) cs)

record Refilled (b r : TokenBucket) (t : ℕ) : Type 0 where
  capacity : r.capacity ≡ b.capacity
  unit : r.unit ≡ b.unit
  rate : r.rate ≡ b.rate
  last : r.last_refill ≡ max b.last_refill t
  paid : r.tokens + b.last_refill * b.rate ≤ b.tokens + r.last_refill * b.rate

pub mul_gap : (l t r : ℕ) → l ≤ t → (t - l) * r + l * r ≡ t * r
mul_gap l t r h = let e : t ≡ t - l + l = omega arith in omega (arith, ap (λ (x : ℕ). x * r) e)

refill-Refilled : (t : ℕ) (b : TokenBucket) → Refilled b (refill t b) t
unfolding refill
refill-Refilled t b = elim (Bool-cases (t - b.last_refill == 0)) [
  | inl early ↦ rw early (record {
    capacity = refl;
    unit = refl;
    rate = refl;
    last = ground arith;
    paid = omega arith;
  })
  | inr late ↦ rw late (record {
    capacity = refl;
    unit = refl;
    rate = refl;
    last = ground arith;
    paid =
        let h : b.last_refill ≤ t = ground arith in omega (arith, mul_gap b.last_refill t b.rate h);
  })
]

refill-IsBucket : (t : ℕ) (b : TokenBucket) → IsBucket b → IsBucket (refill t b)
unfolding refill
refill-IsBucket t b v = ground arith

-- A call of `tryTake` keeps the number of tokens within the capacity.
try_take-IsBucket : (t count : ℕ) (b : TokenBucket) → IsBucket b → IsBucket (try_take t count b).0
unfolding try_take
try_take-IsBucket t count b v = ground (arith, refill-IsBucket t b v)

module _ (t count : ℕ) (b : TokenBucket) where
  -- What one call does to the accounts.
  pub record Taken (r : TokenBucket) (granted : ℕ) : Type 0 where
    pub capacity : r.capacity ≡ b.capacity
    pub unit : r.unit ≡ b.unit
    pub rate : r.rate ≡ b.rate
    pub last : r.last_refill ≡ max b.last_refill t
    pub paid :
        granted * b.unit + r.tokens + b.last_refill * b.rate ≤ b.tokens + r.last_refill * b.rate

  pub try_take-Taken : Taken (try_take t count b).0 (if (try_take t count b).1 then count else 0)
  unfolding try_take
  try_take-Taken =
      let f = refill-Refilled t b in
      elim (Bool-cases (leb (count * (refill t b).unit) (refill t b).tokens)) [
        | inl enough ↦ rw enough (record {
          capacity = f.capacity;
          unit = f.unit;
          rate = f.rate;
          last = f.last;
          paid =
              let le : count * (refill t b).unit ≤ (refill t b).tokens = leb→le _ _ enough in
              omega (arith, f.paid, ap (λ (x : ℕ). count * x) f.unit);
        })
        | inr few ↦ rw few (record {
          capacity = f.capacity;
          unit = f.unit;
          rate = f.rate;
          last = f.last;
          paid = omega (arith, f.paid);
        })
      ]

granted_after :
    (t : Bool) (granted count : ℕ)
    → (if t then granted + count else granted) ≡ granted + (if t then count else 0)
granted_after true granted count = refl
granted_after false granted count = omega arith

run_calls-paid :
    (cs : List Call) (b : TokenBucket) (granted : ℕ)
    → ((run_calls cs b granted).1 * b.unit + b.last_refill * b.rate
        ≤ granted * b.unit + b.tokens + latest b.last_refill cs * b.rate)
unfolding run_calls
run_calls-paid [] b granted = omega arith
run_calls-paid (c ∷ cs) b granted =
    let f = try_take-Taken c.at c.count b in
    let r = (try_take c.at c.count b).0 in
    let g = granted + (if (try_take c.at c.count b).1 then c.count else 0) in
    let ih = run_calls-paid cs r g in
    let ih' : (run_calls cs r g).1 * b.unit + r.last_refill * b.rate
        ≤ g * b.unit + r.tokens + latest (max b.last_refill c.at) cs * b.rate =
      subst
        (λ l.
          (run_calls cs r g).1 * b.unit + r.last_refill * b.rate
          ≤ g * b.unit + r.tokens + latest l cs * b.rate)
        f.last
        (subst
          (λ u.
            (run_calls cs r g).1 * u + r.last_refill * b.rate
            ≤ g * u + r.tokens + latest r.last_refill cs * b.rate)
          f.unit
          (subst
            (λ a.
              (run_calls cs r g).1 * r.unit + r.last_refill * a
              ≤ g * r.unit + r.tokens + latest r.last_refill cs * a)
            f.rate ih)) in
    omega (
      arith,
      f.paid,
      ap (λ (x : ℕ). (run_calls cs r x).1 * b.unit)
          (granted_after (try_take c.at c.count b).1 granted c.count),
    )

-- In any history of calls, from any state of the bucket, the tokens that are granted are no more
-- than the capacity and what is refilled from the last refill to the latest reading of the clock.
pub run_calls_rate :
    (b : TokenBucket) (cs : List Call)
    → IsBucket b
    → (run_calls cs b 0).1 * b.unit
      ≤ b.capacity * b.unit + (latest b.last_refill cs - b.last_refill) * b.rate
run_calls_rate b cs v =
    let h = run_calls-paid cs b 0 in
    let later = latest-le b.last_refill cs in
    omega (arith, mul_gap b.last_refill (latest b.last_refill cs) b.rate later)

-- A history of calls keeps the tokens within the capacity.
pub run_calls-IsBucket :
    (b : TokenBucket) (cs : List Call) (granted : ℕ)
    → IsBucket b
    → IsBucket (run_calls cs b granted).0
unfolding run_calls
run_calls-IsBucket b [] granted v = v
run_calls-IsBucket b (c ∷ cs) granted v =
    run_calls-IsBucket (try_take c.at c.count b).0 cs _ (try_take-IsBucket c.at c.count b v)
