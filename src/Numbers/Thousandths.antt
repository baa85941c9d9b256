-- ===== src/Numbers/Thousandths.antt =====
-- The laws of the interface can be met: non-negative numbers counted in thousandths, with a power
-- that knows whole exponents only.
use proxy_pulse_crunchyroll.Prelude.{
  ℕ, zero, suc, ◌+◌, ◌-◌, ◌*◌, ◌/◌, min, max, ◌≡◌, true, false, arith, ltb, leb,
}
use proxy_pulse_crunchyroll.Numbers.{Number}

unfoldable pub round_to_whole : ℕ → ℕ
round_to_whole x = (x + 500) / 1000 * 1000

unfoldable pub whole_power : ℕ → ℕ → ℕ
whole_power x zero = 1000
whole_power x (suc n) = whole_power x n * x / 1000

pub lt-whole : (a b : ℕ) → ltb (a * 1000 / 1) (b * 1000 / 1) ≡ ltb a b
lt-whole a b = ground arith

pub round_lower :
    (x n : ℕ) → ltb x (n * 1000 / 1) ≡ false → ltb (round_to_whole x) (n * 1000 / 1) ≡ false
unfolding round_to_whole
round_lower x n h = ground arith

pub round_upper :
    (x n : ℕ) → ltb (n * 1000 / 1) x ≡ false → ltb (n * 1000 / 1) (round_to_whole x) ≡ false
unfolding round_to_whole
round_upper x n h = ground arith

pub maximum_left : (a b : ℕ) → ltb (max a b) a ≡ false
maximum_left a b = ground arith

pub minimum_left : (a b : ℕ) → ltb a (min a b) ≡ false
minimum_left a b = ground arith

pub minimum_right : (a b : ℕ) → ltb b (min a b) ≡ false
minimum_right a b = ground arith

pub minimum_lower : (a b c : ℕ) → ltb a c ≡ false → ltb b c ≡ false → ltb (min a b) c ≡ false
minimum_lower a b c h k = ground arith

pub percent_lower : (x : ℕ) → ltb x 0 ≡ false → ltb (x * 100000 / 1000) 0 ≡ false
percent_lower x h = ground arith

pub percent_upper : (x : ℕ) → ltb 1000 x ≡ false → ltb 100000 (x * 100000 / 1000) ≡ false
percent_upper x h = ground arith

abbrev pub thousandths : Number
thousandths = record {
  Num = ℕ;
  ratio = λ n d. n * 1000 / d;
  add = ◌+◌;
  sub = ◌-◌;
  mul = λ a b. a * b / 1000;
  div = λ a b. a * 1000 / b;
  power = λ a b. whole_power a (b / 1000);
  minimum = min;
  maximum = max;
  round = round_to_whole;
  fixed3 = λ a. a;
  is_finite = λ a. true;
  lt = ltb;
  le = leb;
  lt-whole = λ a b p q. lt-whole a b;
  round_lower = λ x n p. round_lower x n;
  round_upper = λ x n p. round_upper x n;
  maximum_left = maximum_left;
  minimum_left = minimum_left;
  minimum_right = minimum_right;
  minimum_lower = minimum_lower;
  percent_lower = percent_lower;
  percent_upper = percent_upper;
}
