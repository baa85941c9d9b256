-- ===== src/Concurrency/TokenBucket/Waiting.antt =====
-- `take` resolves: with a clock that the pauses move on, and no abort, a count within the capacity
-- is granted after a bounded number of rounds.
use proxy_pulse_crunchyroll.Prelude.{
  ℕ, zero, suc, ◌+◌, ◌-◌, ◌*◌, ◌<◌, ◌≤◌, ◌≡◌, refl, inl, inr, Bool, false, arith, leb, Bool-cases,
}
use proxy_pulse_crunchyroll.Concurrency.TokenBucket.{TokenBucket, taken, refill, pause, take_tokens}

-- The shares that are missing.
abbrev pub missing : ℕ → TokenBucket → ℕ
missing count b = count * b.unit - b.tokens

pause_pos : (count : ℕ) (b : TokenBucket) → 5 ≤ pause count b
unfolding pause
pause_pos count b = omega arith

times_pos : (a b : ℕ) → 0 < a → 0 < b → 0 < a * b
times_pos a b h k = grind arith

times_le : (a b c : ℕ) → a ≤ b → a * c ≤ b * c
times_le a b c h = grind arith

-- At a positive rate a later reading of the clock refills a share at least, up to the capacity.
refill_gains :
    (t : ℕ) (count : ℕ) (b : TokenBucket)
    → count ≤ b.capacity
    → 0 < b.rate
    → b.last_refill < t
    → b.tokens < count * b.unit
    → missing count (refill t b) < missing count b
unfolding refill
refill_gains t count b h r later k =
    ground (arith, times_pos (t - b.last_refill) b.rate, times_le count b.capacity b.unit h)

-- What a refill leaves as it was, and the time that it notes.
refill_fields :
    (t : ℕ) (b : TokenBucket)
    → b.last_refill ≤ t
    → ((refill t b).capacity ≡ b.capacity)
      × ((refill t b).rate ≡ b.rate)
      × ((refill t b).last_refill ≡ t)
unfolding refill
refill_fields t b h = ground arith

refill-unit : (t : ℕ) (b : TokenBucket) → (refill t b).unit ≡ b.unit
unfolding refill
refill-unit t b = ground arith

take_tokens_from :
    (fuel now count : ℕ) (b : TokenBucket) (quiet : ℕ → Bool)
    → ((n : ℕ) → quiet n ≡ false)
    → count ≤ b.capacity
    → 0 < b.rate
    → b.last_refill ≤ now
    → missing count (refill now b) < fuel
    → (t : ℕ) × (r : TokenBucket) × (take_tokens fuel quiet now count b ≡ taken t r) × (now ≤ t)
unfolding take_tokens
take_tokens_from zero now count b quiet q h p l m = absurd (omega arith)
take_tokens_from (suc fuel) now count b quiet q h p l m =
    let (fc, fr, fl) = refill_fields now b l in
    let calm = q now in
    elim (Bool-cases (leb (count * b.unit) (refill now b).tokens)) [
      | inl enough ↦ (
        now,
        record (refill now b) { tokens = (refill now b).tokens - count * b.unit },
        ground arith,
        omega arith,
      )
      | inr few ↦
          let step = pause count (refill now b) in
          let longer = pause_pos count (refill now b) in
          let lack : (refill now b).tokens < count * (refill now b).unit =
            rw (refill-unit now b) (ground arith) in
          let gain =
            refill_gains (now + step) count (refill now b) (omega arith) (omega arith) (omega arith)
              lack in
          let (t, r, e, later) =
            take_tokens_from fuel (now + step) count (refill now b) quiet q (omega arith)
              (omega arith) (omega arith) (omega arith) in
          (t, r, ground arith, omega arith)
    ]

-- A count within the capacity is granted at a positive rate: on a clock that the pauses move on,
-- with no abort, `take` resolves, and more rounds than shares are missing are enough for it.
pub take_tokens_resolves :
    (fuel now count : ℕ) (b : TokenBucket)
    → count ≤ b.capacity
    → 0 < b.rate
    → b.last_refill ≤ now
    → missing count (refill now b) < fuel
    → (t : ℕ) × (r : TokenBucket) × (take_tokens fuel (λ n. false) now count b ≡ taken t r)
      × (now ≤ t)
take_tokens_resolves fuel now count b h p l m =
    take_tokens_from fuel now count b (λ n. false) (λ n. refl) h p l m
