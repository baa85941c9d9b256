-- ===== src/Scoring/Bounds.antt =====
-- The range of the scores: what is neither below a bound nor above the other. A NaN is neither, so that
-- nothing here excludes it.
use proxy_pulse_crunchyroll.Prelude.{
  ℕ, ◌^◌, ◌≤◌, ◌≡◌, ◌∙◌, inl, inr, Bool, true, false, Option, none, some, arith, if◌then◌else◌,
  Bool-cases,
}
use proxy_pulse_crunchyroll.Numbers.{Number}
use proxy_pulse_crunchyroll.Scoring.{
  clamp, clamp01, latency_score, freshness_score, score_proxy_detailed, unit_clamp, combine_scores,
}
use proxy_pulse_crunchyroll.Scoring.Records.{ScoringConfig, ScoreInput}

module _ (N : Number) where
  open N use {Num, ratio, div, mul, round, lt}

  -- Neither below the whole number `least` nor above the whole number `most`.
  abbrev pub Within : ℕ → ℕ → Num → Type 0
  Within least most x = (lt x (ratio least 1) ≡ false) × (lt (ratio most 1) x ≡ false)

  whole : (a b : ℕ) → a ≤ b → b ≤ 2 ^ 53 → lt (ratio b 1) (ratio a 1) ≡ false
  whole a b h k = N.lt-whole b a k (omega arith) ∙ (ground arith)

  Within-least : (a b : ℕ) → a ≤ b → b ≤ 2 ^ 53 → Within a b (ratio a 1)
  Within-least a b h k = (whole a a (omega arith) (omega arith), whole a b h k)

  Within-most : (a b : ℕ) → a ≤ b → b ≤ 2 ^ 53 → Within a b (ratio b 1)
  Within-most a b h k = (whole a b h k, whole b b (omega arith) k)

  clamp-Within :
      (x : Num) (a b : ℕ) → a ≤ b → b ≤ 2 ^ 53 → Within a b (clamp N x (ratio a 1) (ratio b 1))
  unfolding clamp
  clamp-Within x a b h k = elim (Bool-cases (lt x (ratio a 1))) [
    | inl low ↦ rw low (Within-least a b h k)
    | inr ok ↦ elim (Bool-cases (lt (ratio b 1) x)) [
      | inl high ↦ rw (ok, high) (Within-most a b h k)
      | inr fine ↦ rw (ok, fine) (ok, fine)
    ]
  ]

  if-Within :
      (a b : ℕ) (t : Bool) (x y : Num)
      → Within a b x
      → Within a b y
      → Within a b (if t then x else y)
  if-Within a b true x y h k = h
  if-Within a b false x y h k = k

  zero_one : Within 0 1 (ratio 0 1)
  zero_one = Within-least 0 1 (omega arith) (omega arith)

  one_one : Within 0 1 (ratio 1 1)
  one_one = Within-most 0 1 (omega arith) (omega arith)

  unit_range : (x : Num) → Within 0 1 (clamp01 N x)
  unit_range x = clamp-Within x 0 1 (omega arith) (omega arith)

  latency_score-Within :
      (latency : Option Num) (config : ScoringConfig N)
      → Within 0 1 (latency_score N latency config)
  unfolding latency_score
  latency_score-Within none config = zero_one
  latency_score-Within (some ms) config =
      if-Within 0 1 _ _ _ zero_one
        (if-Within 0 1 _ _ _ one_one (if-Within 0 1 _ _ _ zero_one (unit_range _)))

  freshness_score-Within :
      (minutes : Option Num) (config : ScoringConfig N)
      → Within 0 1 (freshness_score N minutes config)
  unfolding freshness_score
  freshness_score-Within none config = zero_one
  freshness_score-Within (some m) config =
      if-Within 0 1 _ _ _ zero_one (if-Within 0 1 _ _ _ one_one (unit_range _))

  -- The latency factor and the freshness factor lie between 0 and 1, whatever was measured and
  -- however the scoring is configured.
  pub factors-Within :
      (latency minutes : Option Num) (config : ScoringConfig N)
      → Within 0 1 (latency_score N latency config) × Within 0 1 (freshness_score N minutes config)
  factors-Within latency minutes config =
      (latency_score-Within latency config, freshness_score-Within minutes config)

  round-Within : (a b : ℕ) (x : Num) → a ≤ 2 ^ 53 → b ≤ 2 ^ 53 → Within a b x → Within a b (round x)
  round-Within a b x p q (h, k) = (N.round_lower x a p h, N.round_upper x b q k)

  -- A score is never below 0 nor above 100, whatever the weights and penalties are.
  pub score_proxy_detailed-Within :
      (input : ScoreInput N) (config : ScoringConfig N)
      → Within 0 100 (score_proxy_detailed N input config).score
  unfolding score_proxy_detailed
  score_proxy_detailed-Within input config = elim (Bool-cases input.validation_passed) [
    | inl passed ↦ rw passed (
        round-Within 0 100 _ (omega arith) (omega arith)
          (clamp-Within _ 0 100 (omega arith) (omega arith)))
    | inr failed ↦ rw failed (Within-least 0 100 (omega arith) (omega arith))
  ]

  unit_clamp-Within : (x : Num) → Within 0 1 (unit_clamp N x)
  unfolding unit_clamp
  unit_clamp-Within x = (
    N.minimum_lower (ratio 1 1) (N.maximum (ratio 0 1) x) (ratio 0 1)
        (whole 0 1 (omega arith) (omega arith)) (N.maximum_left (ratio 0 1) x),
    N.minimum_left (ratio 1 1) (N.maximum (ratio 0 1) x),
  )

  percent-Within : (x : Num) → Within 0 1 x → Within 0 100 (round (mul x (ratio 100 1)))
  percent-Within x (h, k) =
      round-Within 0 100 (mul x (ratio 100 1)) (omega arith) (omega arith)
        (N.percent_lower x h, N.percent_upper x k)

  -- A combined score is never below 0 nor above 100, with or without a verdict of the service, at any
  -- weight.
  pub combine_scores-Within :
      (connectivity : Num) (quality weight : Option Num)
      → Within 0 100 (combine_scores N connectivity quality weight)
  unfolding combine_scores
  combine_scores-Within connectivity none weight = percent-Within _ (unit_clamp-Within _)
  combine_scores-Within connectivity (some q) weight = percent-Within _ (unit_clamp-Within _)
