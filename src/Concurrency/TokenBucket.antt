-- ===== src/Concurrency/TokenBucket.antt =====
-- shared/src/concurrency.ts: TokenBucket. Tokens are counted exactly: in shares, `unit` of which are
-- one token, and `rate` of which are refilled in a millisecond, so that `refillPerSecond` is
-- 1000 * rate / unit. The clock's readings are arguments of the calls.
pub mod Rate
pub mod Waiting
use proxy_pulse_crunchyroll.Prelude.{
  ℕ, zero, suc, ◌+◌, ◌-◌, ◌*◌, ◌/◌, min, max, Bool, true, false, leb, ◌==◌, if◌then◌else◌,
}

pub record TokenBucket : Type 0 where
  pub capacity : ℕ
  pub unit : ℕ
  pub rate : ℕ
  pub tokens : ℕ
  pub last_refill : ℕ

-- The constructor, at the time `now`.
unfoldable pub new_bucket : ℕ → ℕ → ℕ → ℕ → TokenBucket
new_bucket capacity unit rate now = record {
  capacity = capacity;
  unit = unit;
  rate = rate;
  tokens = capacity * unit;
  last_refill = now;
}

unfoldable pub refill : ℕ → TokenBucket → TokenBucket
refill current b =
    let elapsed = current - b.last_refill in
    if elapsed == 0 then b else record b {
      tokens = min (b.capacity * b.unit) (b.tokens + elapsed * b.rate);
      last_refill = current;
    }

-- In shares.
unfoldable pub available : ℕ → TokenBucket → TokenBucket × ℕ
available now b = (refill now b, (refill now b).tokens)

unfoldable pub try_take : ℕ → ℕ → TokenBucket → TokenBucket × Bool
try_take now count b =
    let r = refill now b in
    if leb (count * r.unit) r.tokens
    then (record r { tokens = r.tokens - count * r.unit }, true)
    else (r, false)

-- `Math.ceil(a / b)`
abbrev pub ceil_div : ℕ → ℕ → ℕ
ceil_div a b = (a + b - 1) / b

-- The pause of `take` when `count` tokens are not there: at least 5 and at most 2000 milliseconds.
-- The rate is positive here; the source guards a rate of zero by `Math.max(0.001, …)`.
unfoldable pub pause : ℕ → TokenBucket → ℕ
pause count b = min (max 5 (ceil_div (count * b.unit - b.tokens) b.rate)) 2000

pub data TakeResult : Type 0 where
  taken : ℕ → TokenBucket → TakeResult
  aborted : TakeResult
  out_of_fuel : TakeResult

-- The loop of `take` on fuel, with a clock that a pause of `n` milliseconds moves by `n`, and the
-- signal asked at the start of each round. `taken t b` is the time at which it resolves.
unfoldable pub take_tokens : ℕ → (ℕ → Bool) → ℕ → ℕ → TokenBucket → TakeResult
take_tokens zero aborted_at now count b = out_of_fuel
take_tokens (suc fuel) aborted_at now count b = elim (aborted_at now) [
  | true ↦ aborted
  | false ↦ elim (leb (count * b.unit) (refill now b).tokens) [
    | true ↦ taken now (record (refill now b) { tokens = (refill now b).tokens - count * b.unit })
    | false ↦ take_tokens fuel aborted_at (now + pause count (refill now b)) count (refill now b)
  ]
]
