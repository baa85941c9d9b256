-- ===== src/RateLimit.antt =====
-- api/src/rate-limit.ts: the fixed-window limiter over a KV namespace. The namespace is not code of
-- the repository, so its `get` and `put` are fields of an interface; so are `String(n)` and `Number(s)`.
-- What the clock says at a call is an argument of the call.
pub mod Window
pub mod Refusals
mod Tests
use proxy_pulse_crunchyroll.Prelude.{
  ℕ, ◌+◌, ◌-◌, ◌/◌, ◌%◌, max, Bool, true, false, List, [], ◌∷◌, ◌++◌, Option, none, some, ltb,
  if◌then◌else◌, or_default,
}
use proxy_pulse_crunchyroll.Text.{Text, codes}

-- A namespace with states `S`. `get` gives `none` where it throws, and else what is stored, if anything;
-- `put` says whether it succeeded.
pub record KvStore (S : Type 0) : Type 0 where
  pub get : S → Text → Option (Option Text)
  pub put : S → Text → Text → ℕ → S × Bool

-- `number s` is `none` where `Number(s)` is not finite.
pub record Runtime : Type 0 where
  pub to_text : ℕ → Text
  pub number : Text → Option ℕ

pub record RateLimitResult : Type 0 where
  pub allowed : Bool
  pub limit : ℕ
  pub remaining : ℕ
  pub reset_seconds : ℕ
  pub retry_after_seconds : ℕ

pub record RateLimitDeps (S : Type 0) : Type 0 where
  pub kv : Option (KvStore S)
  pub max_count : ℕ
  pub window_seconds : ℕ

abbrev pub limit_key : Runtime → Text → Text → ℕ → Text
limit_key js bucket address window =
    codes "rl:" ++ (bucket ++ (codes ":" ++ (address ++ (codes ":" ++ js.to_text window))))

-- `Number(raw ?? '0')`, and 0 where that is not finite.
abbrev pub count_of : Runtime → Option Text → ℕ
count_of js raw = or_default (js.number (or_default raw (codes "0"))) 0

module _ {S : Type 0} where
  abbrev pub window_length : RateLimitDeps S → ℕ
  window_length deps = max 1 deps.window_seconds

  abbrev pub window_of : RateLimitDeps S → ℕ → ℕ
  window_of deps now = now / 1000 / window_length deps

  abbrev pub key_of : Runtime → RateLimitDeps S → ℕ → Text → Text → Text
  key_of js deps now bucket address = limit_key js bucket address (window_of deps now)

  unfoldable pub reset_seconds : RateLimitDeps S → ℕ → ℕ
  reset_seconds deps now = window_length deps - (now / 1000 % window_length deps)

  abbrev base : RateLimitDeps S → ℕ → RateLimitResult
  base deps now = record {
    allowed = true;
    limit = deps.max_count;
    remaining = deps.max_count;
    reset_seconds = reset_seconds deps now;
    retry_after_seconds = 0;
  }

  verdict_at : RateLimitDeps S → ℕ → ℕ → RateLimitResult
  unfolding reset_seconds
  verdict_at deps now next =
      if ltb deps.max_count next
      then record {
        allowed = false;
        limit = deps.max_count;
        remaining = 0;
        reset_seconds = reset_seconds deps now;
        retry_after_seconds = reset_seconds deps now;
      }
      else record (base deps now) { remaining = deps.max_count - next }

module _ {S : Type 0} (js : Runtime) where
  -- After `put`, and after `get`; a call that throws leaves the request allowed.
  unfoldable pub settle_put : RateLimitDeps S → ℕ → ℕ → S × Bool → RateLimitResult × S
  unfolding verdict_at reset_seconds
  settle_put deps now next (s, true) = (verdict_at deps now next, s)
  settle_put deps now next (s, false) = (base deps now, s)

  unfoldable pub settle_get :
      RateLimitDeps S → ℕ → KvStore S → Text → S → Option (Option Text) → RateLimitResult × S
  unfolding settle_put reset_seconds
  settle_get deps now kv key s none = (base deps now, s)
  settle_get deps now kv key s (some raw) =
      let next = count_of js raw + 1 in
      settle_put deps now next (kv.put s key (js.to_text next) (window_length deps + 1))

  unfoldable pub check_with :
      RateLimitDeps S → ℕ → Option (KvStore S) → Text → S → RateLimitResult × S
  unfolding settle_get reset_seconds
  check_with deps now none key s = (record (base deps now) { limit = 0; remaining = 0 }, s)
  check_with deps now (some kv) key s = settle_get deps now kv key s (kv.get s key)

  unfoldable pub check_rate_limit : RateLimitDeps S → ℕ → Text → Text → S → RateLimitResult × S
  unfolding check_with
  check_rate_limit deps now bucket address s =
      check_with deps now deps.kv (key_of js deps now bucket address) s

  -- Which of the calls at these times, one after the other, are allowed.
  unfoldable pub verdicts : RateLimitDeps S → Text → Text → List ℕ → S → List Bool
  unfolding check_rate_limit
  verdicts deps bucket address [] s = []
  verdicts deps bucket address (now ∷ nows) s =
      let r = check_rate_limit deps now bucket address s in
      r.0.allowed ∷ verdicts deps bucket address nows r.1
