-- ===== src/Db/Queries/Upserted.antt =====
-- db/src/repositories/proxies.ts: what upsertCandidates does to the table, and what it reports of it.
use proxy_pulse_crunchyroll.Prelude.{
  ◌+◌, ◌≤◌, ◌≡◌, refl, ◌∙◌, inl, inr, Bool, true, false, not, ◌||◌, List, [], ◌∷◌, arith,
  if◌then◌else◌, Bool-cases, if-cases, length, any, length-append, All, All-keep, keep, any-append,
}
use proxy_pulse_crunchyroll.Text.{Text, text_eq}
use proxy_pulse_crunchyroll.Numbers.{Number}
use proxy_pulse_crunchyroll.Db.{ProxyRow}
use proxy_pulse_crunchyroll.Db.Sweeps.{Table, update_where}
use proxy_pulse_crunchyroll.Db.Sweeps.Counting.{length-update_where}
use proxy_pulse_crunchyroll.Db.Queries.{
  Candidate, first_by_key, has_key, seen_again, next_id, new_row, upsert_one, upsert_all,
  count_unknown, upsert_candidates,
}

text_eq_sym : (s t : Text) → text_eq s t ≡ text_eq t s
text_eq_sym [] [] = refl
text_eq_sym [] (b ∷ t) = refl
text_eq_sym (a ∷ s) [] = refl
text_eq_sym (a ∷ s) (b ∷ t) = let h = text_eq_sym s t in ground arith

-- Candidates of different keys.
abbrev Distinct : List Candidate → Type 0
Distinct [] = Unit
Distinct (c ∷ cs) = All (λ d. text_eq c.key d.key ≡ false) cs × Distinct cs

Distinct-keep : (p : Candidate → Bool) (cs : List Candidate) → Distinct cs → Distinct (keep p cs)
Distinct-keep p [] h = tt
Distinct-keep p (c ∷ cs) (h, hs) =
    if-cases Distinct (p c) (c ∷ keep p cs) (keep p cs)
      (λ _. (All-keep (λ d. text_eq c.key d.key ≡ false) p cs h, Distinct-keep p cs hs))
      (λ _. Distinct-keep p cs hs)

-- What is left beside a candidate has other keys.
others-All :
    (c : Candidate) (cs : List Candidate)
    → All (λ d. text_eq c.key d.key ≡ false) (keep (λ d. not (text_eq d.key c.key)) cs)
others-All c [] = tt
others-All c (d ∷ cs) =
    if-cases (All (λ d. text_eq c.key d.key ≡ false)) (not (text_eq d.key c.key)) _ _
      (λ differs. (text_eq_sym c.key d.key ∙ ground arith, others-All c cs)) (λ _. others-All c cs)

first_by_key-Distinct : (cs : List Candidate) → Distinct (first_by_key cs)
unfolding first_by_key
first_by_key-Distinct [] = tt
first_by_key-Distinct (c ∷ cs) =
    (others-All c (first_by_key cs), Distinct-keep _ (first_by_key cs) (first_by_key-Distinct cs))

or-false : (b : Bool) → (b || false) ≡ b
or-false true = refl
or-false false = refl

module _ (N : Number) where
  knows-update :
      (key : Text) (test : ProxyRow N → Bool) (cycle : Text) (t : Table N)
      → any (has_key N key) (update_where N test (seen_again N cycle) t) ≡ any (has_key N key) t
  unfolding update_where
  knows-update key test cycle [] = refl
  knows-update key test cycle (r ∷ t) = elim (Bool-cases (test r)) [
    | inl seen ↦ rw (seen, knows-update key test cycle t) refl
    | inr other ↦ rw (other, knows-update key test cycle t) refl
  ]

  -- A candidate changes nothing for the other keys.
  knows-upsert_one :
      (cycle key : Text) (c : Candidate) (t : Table N)
      → text_eq c.key key ≡ false
      → any (has_key N key) (upsert_one N cycle c t) ≡ any (has_key N key) t
  unfolding upsert_one
  knows-upsert_one cycle key c t e =
      if-cases (λ u. any (has_key N key) u ≡ any (has_key N key) t) (any (has_key N c.key) t) _ _
        (λ _. knows-update key (has_key N c.key) cycle t)
        (λ _.
          any-append (has_key N key) t (new_row N cycle (next_id N t) c ∷ []) ∙ rw e (or-false _))

  count_unknown-upsert_one :
      (cycle : Text) (c : Candidate) (cs : List Candidate) (t : Table N)
      → All (λ d. text_eq c.key d.key ≡ false) cs
      → count_unknown N cs (upsert_one N cycle c t) ≡ count_unknown N cs t
  unfolding count_unknown
  count_unknown-upsert_one cycle c [] t h = refl
  count_unknown-upsert_one cycle c (d ∷ cs) t (h, hs) =
      rw (knows-upsert_one cycle d.key c t h, count_unknown-upsert_one cycle c cs t hs) refl

  length-upsert_one :
      (cycle : Text) (c : Candidate) (t : Table N)
      → length (upsert_one N cycle c t) ≡ length t + (if any (has_key N c.key) t then 0 else 1)
  unfolding upsert_one
  length-upsert_one cycle c t = elim (Bool-cases (any (has_key N c.key) t)) [
    | inl known ↦
        rw known (omega (arith, length-update_where N (has_key N c.key) (seen_again N cycle) t))
    | inr fresh ↦ rw fresh (length-append t (new_row N cycle (next_id N t) c ∷ []))
  ]

  length-upsert_all :
      (cycle : Text) (cs : List Candidate) (t : Table N)
      → Distinct cs
      → length (upsert_all N cycle cs t) ≡ length t + count_unknown N cs t
  unfolding upsert_all count_unknown
  length-upsert_all cycle [] t h = omega arith
  length-upsert_all cycle (c ∷ cs) t (h, hs) = omega (
    arith,
    length-upsert_all cycle cs (upsert_one N cycle c t) hs,
    count_unknown-upsert_one cycle c cs t h,
    length-upsert_one cycle c t,
  )

  count_unknown-le : (cs : List Candidate) (t : Table N) → count_unknown N cs t ≤ length cs
  unfolding count_unknown
  count_unknown-le [] t = omega arith
  count_unknown-le (c ∷ cs) t = let h = count_unknown-le cs t in ground arith

  -- The number of rows that `upsertCandidates` reports as inserted, counted before the first
  -- statement that writes, is the number by which the table grows, also when candidates repeat a
  -- key; and those inserted and those touched make up the total.
  pub upsert_candidates-counts :
      (cycle : Text) (candidates : List Candidate) (t : Table N)
      → let (after, result) = upsert_candidates N cycle candidates t in
        (length after ≡ length t + result.inserted)
        × (result.inserted + result.touched ≡ result.total)
  unfolding upsert_candidates
  upsert_candidates-counts cycle candidates t = (
    length-upsert_all cycle (first_by_key candidates) t (first_by_key-Distinct candidates),
    omega (arith, count_unknown-le (first_by_key candidates) t),
  )
