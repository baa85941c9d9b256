-- ===== src/RateLimit/Tests.antt =====
-- Runs of the limiter over a namespace that is a map, and its theorems at concrete inputs.
use proxy_pulse_crunchyroll.Prelude.{
  ℕ, ◌+◌, ◌-◌, max, ◌≡◌, refl, ap, true, false, List, [], ◌∷◌, Option, none, some, arith,
}
use proxy_pulse_crunchyroll.Text.{Text, codes}
use proxy_pulse_crunchyroll.RateLimit.{
  KvStore, Runtime, RateLimitDeps, settle_put, settle_get, check_with, check_rate_limit, verdicts,
}
use proxy_pulse_crunchyroll.RateLimit.Window.{
  ReadsNumbers, last_put, first_in_window, verdicts_first,
}

abbrev digit_value : Text → Option ℕ
digit_value [] = none
digit_value (c ∷ []) = some (c - b'0')
digit_value (c ∷ d ∷ s) = none

-- One unit for a number.
abbrev one_unit : Runtime
one_unit = record { to_text = λ n. (n + b'0') ∷ []; number = digit_value }

-- A map, as the puts into it.
abbrev memory : KvStore (List (Text × Text))
memory = record {
  get = λ s key. some (last_put key s);
  put = λ s key value ttl. ((key, value) ∷ s, true);
}

abbrev deps : RateLimitDeps (List (Text × Text))
deps = record { kv = some memory; max_count = 2; window_seconds = 60 }

one_unit-ReadsNumbers : ReadsNumbers one_unit
one_unit-ReadsNumbers = (λ n. ap some (omega arith), refl)

abbrev times : List ℕ
times = 90000 ∷ 95000 ∷ 119999 ∷ 120000 ∷ []

verdicts_first_example :
    verdicts one_unit deps (codes "api") (codes "1.2.3.4") times []
    ≡ first_in_window (max 1 60) 2 [] times
verdicts_first_example =
    verdicts_first one_unit deps memory (codes "api") (codes "1.2.3.4") times []
      one_unit-ReadsNumbers refl (refl, (refl, (refl, (refl, (refl, (refl, (refl, (refl, tt))))))))

-- The third call in a window is refused, and the next window begins anew.
first_two : first_in_window 60 2 [] times ≡ true ∷ true ∷ false ∷ true ∷ []
first_two = refl

third_refused :
    verdicts one_unit deps (codes "api") (codes "1.2.3.4") times [] ≡ first_in_window 60 2 [] times
unfolding verdicts check_rate_limit check_with settle_get settle_put
third_refused = refl
