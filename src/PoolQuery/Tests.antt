-- ===== src/PoolQuery/Tests.antt =====
-- Runs of the query helpers, and their theorems at concrete inputs.
use proxy_pulse_crunchyroll.Prelude.{
  ℕ, ◌*◌, ◌≡◌, refl, List, [], ◌∷◌, Option, none, some, arith, if◌then◌else◌,
}
use proxy_pulse_crunchyroll.Text.{Text, codes, text_eq, trim, trim_start, is_space}
use proxy_pulse_crunchyroll.PoolQuery.{
  Whole, natural, parse_pool_query, clamp_int, weighted_random_pick, total_weight,
}
use proxy_pulse_crunchyroll.PoolQuery.Picking.{FallsOn, weighted_random_pick-FallsOn}

-- A runtime that knows one number.
abbrev number : Text → Option Whole
number s = if text_eq s (codes "9999") then some (natural 9999) else none

abbrev get : Text → Option Text
get name = if text_eq name (codes "limit") then some (codes "9999") else none

limit_run : (parse_pool_query number get).query.limit ≡ 500
unfolding parse_pool_query clamp_int trim trim_start is_space
limit_run = refl

-- Of weights 1, 3 and 6, the number 0.3 falls on the second.
abbrev scores : List ℕ
scores = 0 ∷ 3 ∷ 6 ∷ []

pick_run : weighted_random_pick (λ n. n) 10 3 scores ≡ some 3
unfolding weighted_random_pick
pick_run = refl

weighted_random_pick-FallsOn_example :
    (entry : ℕ) × (weighted_random_pick (λ n. n) 10 3 scores ≡ some entry)
    × FallsOn (λ n. n) 10 (3 * total_weight (λ n. n) scores) scores entry
weighted_random_pick-FallsOn_example =
    weighted_random_pick-FallsOn (λ n. n) 10 3 scores (omega arith) (omega arith)
