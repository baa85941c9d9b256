-- ===== src/PoolQuery/Picking.antt =====
-- How an entry is picked by its weight.
use proxy_pulse_crunchyroll.Prelude.{
  ℕ, ◌+◌, ◌-◌, ◌*◌, ◌<◌, ◌≤◌, ◌≡◌, refl, ap, ◌⊎◌, inl, inr, true, List, [], ◌∷◌, ◌++◌, some, arith,
  leb, leb→le, if-cases, length,
}
use proxy_pulse_crunchyroll.PoolQuery.{weight_of, total_weight, pick_from, weighted_random_pick}

mul_sum : (a b p : ℕ) → (a + b) * p ≡ a * p + b * p
mul_sum a b p = grind arith

module _ {ℓ} {A : Type ℓ} (score : A → ℕ) (parts : ℕ) where
  -- The target falls on the entry: it is past the weights of those before it, and not past its own.
  pub record FallsOn (target : ℕ) (entries : List A) (entry : A) : Type ℓ where
    pub before : List A
    pub after : List A
    pub place : entries ≡ before ++ (entry ∷ after)
    pub reached : target ≤ (total_weight score before + weight_of score entry) * parts
    pub passed : (before ≡ []) ⊎ (total_weight score before * parts < target)

  next-FallsOn :
      (target : ℕ) (first entry : A) (rest : List A)
      → weight_of score first * parts < target
      → FallsOn (target - weight_of score first * parts) rest entry
      → FallsOn target (first ∷ rest) entry
  next-FallsOn target first entry rest h f =
      let w = weight_of score first in
      let b = total_weight score f.before in
      let s = mul_sum w b parts in
      let t = mul_sum (w + b) (weight_of score entry) parts in
      let u = mul_sum b (weight_of score entry) parts in
      let r = f.reached in
      let p = f.passed in
      record {
        before = first ∷ f.before;
        after = f.after;
        place = ap (λ es. first ∷ es) f.place;
        reached = omega (arith, s, t, u, r, h);
        passed = inr (past p s);
      }
    where
      past :
          (f.before ≡ [])
            ⊎ (total_weight score f.before * parts < target - weight_of score first * parts)
          → (weight_of score first + total_weight score f.before) * parts
            ≡ weight_of score first * parts + total_weight score f.before * parts
          → (weight_of score first + total_weight score f.before) * parts < target
      past (inl none_before) s =
          let z = ap (λ (es : List A). total_weight score es * parts) none_before in
          omega (arith, z, s, h)
      past (inr some_before) s = omega (arith, some_before, s, h)

  here-FallsOn :
      (target : ℕ) (entry : A) (entries : List A)
      → leb target (weight_of score entry * parts) ≡ true
      → FallsOn target (entry ∷ entries) entry
  here-FallsOn target entry entries here = record {
    before = [];
    after = entries;
    place = refl;
    reached =
        let r = leb→le target (weight_of score entry * parts) here in
        omega (arith, r, mul_sum 0 (weight_of score entry) parts);
    passed = inl refl;
  }

  pick_from-FallsOn :
      (target : ℕ) (last : A) (entries : List A)
      → 0 < length entries
      → target ≤ total_weight score entries * parts
      → FallsOn target entries (pick_from score parts target last entries)
  pick_from-FallsOn target last [] h k = absurd (omega arith)
  pick_from-FallsOn target last (entry ∷ []) h k =
      if-cases (FallsOn target (entry ∷ [])) (leb target (weight_of score entry * parts)) _ _
        (λ here. here-FallsOn target entry [] here)
        (λ beyond.
          let s = mul_sum (weight_of score entry) 0 parts in absurd (ground (arith, s, k, beyond)))
  pick_from-FallsOn target last (entry ∷ next ∷ entries) h k =
      let s = mul_sum (weight_of score entry) (total_weight score (next ∷ entries)) parts in
      if-cases (FallsOn target (entry ∷ next ∷ entries))
        (leb target (weight_of score entry * parts)) _ _
        (λ here. here-FallsOn target entry (next ∷ entries) here)
        (λ beyond. next-FallsOn target entry _ (next ∷ entries) (ground (arith, beyond)) (
          pick_from-FallsOn (target - weight_of score entry * parts) entry (next ∷ entries)
            (omega arith) (omega (arith, s, k))))

-- From entries of which there is one at least, the random number `drawn / parts`, which is no more than 1,
-- picks the one on whose part of the total weight it falls: the weights before it, as a share of the total,
-- are less than the number (or there are none), and with its own they are no less. So an entry is picked in
-- proportion to its score, and one with a score of 0 as if it were 1.
pub weighted_random_pick-FallsOn {ℓ} :
    {A : Type ℓ} (score : A → ℕ) (parts drawn : ℕ) (entries : List A)
    → 0 < length entries
    → drawn ≤ parts
    → (entry : A) × (weighted_random_pick score parts drawn entries ≡ some entry)
      × FallsOn score parts (drawn * total_weight score entries) entries entry
unfolding weighted_random_pick
weighted_random_pick-FallsOn score parts drawn [] h k = absurd (omega arith)
weighted_random_pick-FallsOn score parts drawn (first ∷ rest) h k =
    let total = total_weight score (first ∷ rest) in
    (
      pick_from score parts (drawn * total) first (first ∷ rest),
      refl,
      pick_from-FallsOn score parts (drawn * total) first (first ∷ rest) h
          (share drawn parts total k),
    )
  where
    share : (a b t : ℕ) → a ≤ b → a * t ≤ t * b
    share a b t l =
        let s = mul_sum a (b - a) t in
        let e : a + (b - a) ≡ b = omega arith in omega (arith, s, ap (λ (x : ℕ). x * t) e)
