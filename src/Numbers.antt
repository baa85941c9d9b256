-- ===== src/Numbers.antt =====
-- JavaScript's floating-point numbers, as an interface: the operations that the scoring uses, and
-- the laws that it relies on. Each law also holds where an operand is NaN, as every comparison with
-- NaN is false.
pub mod Thousandths
use proxy_pulse_crunchyroll.Prelude.{ℕ, ◌^◌, ◌≤◌, ◌≡◌, Bool, false, ltb}

pub record Number : Type 1 where
  pub Num : Type 0
  -- The literal that stands for n / d.
  pub ratio : ℕ → ℕ → Num
  pub add : Num → Num → Num
  pub sub : Num → Num → Num
  pub mul : Num → Num → Num
  pub div : Num → Num → Num
  pub power : Num → Num → Num
  pub minimum : Num → Num → Num
  pub maximum : Num → Num → Num
  -- `Math.round`, and `Number(x.toFixed(3))`.
  pub round : Num → Num
  pub fixed3 : Num → Num
  pub is_finite : Num → Bool
  pub lt : Num → Num → Bool
  pub le : Num → Num → Bool
  -- Whole numbers up to 2^53 are compared exactly.
  pub lt-whole : (a b : ℕ) → a ≤ 2 ^ 53 → b ≤ 2 ^ 53 → lt (ratio a 1) (ratio b 1) ≡ ltb a b
  -- Rounding does not cross a whole number up to 2^53.
  pub round_lower :
      (x : Num) (n : ℕ) → n ≤ 2 ^ 53 → lt x (ratio n 1) ≡ false → lt (round x) (ratio n 1) ≡ false
  pub round_upper :
      (x : Num) (n : ℕ) → n ≤ 2 ^ 53 → lt (ratio n 1) x ≡ false → lt (ratio n 1) (round x) ≡ false
  pub maximum_left : (a b : Num) → lt (maximum a b) a ≡ false
  pub minimum_left : (a b : Num) → lt a (minimum a b) ≡ false
  pub minimum_right : (a b : Num) → lt b (minimum a b) ≡ false
  pub minimum_lower : (a b c : Num) → lt a c ≡ false → lt b c ≡ false → lt (minimum a b) c ≡ false
  -- A factor between 0 and 1, as a percentage.
  pub percent_lower :
      (x : Num) → lt x (ratio 0 1) ≡ false → lt (mul x (ratio 100 1)) (ratio 0 1) ≡ false
  pub percent_upper :
      (x : Num) → lt (ratio 1 1) x ≡ false → lt (ratio 100 1) (mul x (ratio 100 1)) ≡ false
