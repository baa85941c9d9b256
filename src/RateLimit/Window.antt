-- ===== src/RateLimit/Window.antt =====
-- Which requests a window lets through.
use proxy_pulse_crunchyroll.Prelude.{
  ℕ, suc, ◌+◌, ◌/◌, max, ◌≡◌, refl, sym, ap, ◌∙◌, inl, inr, Bool, true, false, List, [], ◌∷◌, ◌++◌,
  Option, none, some, arith, ltb, leb, ◌==◌, if◌then◌else◌, Bool-cases, some-eq,
}
use proxy_pulse_crunchyroll.Text.{Text, codes, text_eq}
use proxy_pulse_crunchyroll.RateLimit.{
  KvStore, Runtime, RateLimitDeps, window_length, window_of, limit_key, key_of, count_of,
  settle_put, settle_get, check_with, check_rate_limit, verdicts,
}

-- Every whole number is read back from its text.
abbrev pub ReadsNumbers : Runtime → Type 0
ReadsNumbers js = ((n : ℕ) → js.number (js.to_text n) ≡ some n) × (js.number (codes "0") ≡ some 0)

-- The value put last at a key, of values put one after the other, the last of them in front.
abbrev pub last_put : Text → List (Text × Text) → Option Text
last_put key [] = none
last_put key ((k, v) ∷ puts) = if text_eq k key then some v else last_put key puts

-- How many times fall into a window of `length` seconds.
abbrev pub in_window : ℕ → ℕ → List ℕ → ℕ
in_window length window [] = 0
in_window length window (now ∷ nows) =
    if now / 1000 / length == window
    then suc (in_window length window nows)
    else in_window length window nows

-- A call is let through while fewer than `most` calls before it fall into its window.
abbrev pub first_in_window : ℕ → ℕ → List ℕ → List ℕ → List Bool
first_in_window length most past [] = []
first_in_window length most past (now ∷ nows) =
    ltb (in_window length (now / 1000 / length) past) most
    ∷ first_in_window length most (now ∷ past) nows

text_eq_refl : (s : Text) → text_eq s s ≡ true
text_eq_refl [] = refl
text_eq_refl (c ∷ s) = ground (arith, text_eq_refl s)

text_eq_sound : (s t : Text) → text_eq s t ≡ true → s ≡ t
text_eq_sound [] [] h = refl
text_eq_sound [] (d ∷ t) h = cc
text_eq_sound (c ∷ s) [] h = cc
text_eq_sound (c ∷ s) (d ∷ t) h = ground (arith, text_eq_sound s t)

text_eq-append : (p s t : Text) → text_eq (p ++ s) (p ++ t) ≡ text_eq s t
text_eq-append [] s t = refl
text_eq-append (c ∷ p) s t = ground (arith, text_eq-append p s t)

module _ (js : Runtime) where
  text_eq-to_text : (m n : ℕ) → ReadsNumbers js → text_eq (js.to_text m) (js.to_text n) ≡ (m == n)
  text_eq-to_text m n reads = elim (Bool-cases (text_eq (js.to_text m) (js.to_text n))) [
    | inl same ↦
        let e : some m ≡ some n =
          sym (reads.0 m)
          ∙ (ap js.number (text_eq_sound (js.to_text m) (js.to_text n) same) ∙ reads.0 n) in
        let f = some-eq e in ground arith
    | inr other ↦ elim (Bool-cases (m == n)) [
      | inl same ↦
          let e : m ≡ n = ground arith in
          let f : text_eq (js.to_text m) (js.to_text n) ≡ true =
            ap (λ k. text_eq (js.to_text m) (js.to_text k)) (sym e) ∙ text_eq_refl (js.to_text m) in
          cc
      | inr differ ↦ cc
    ]
  ]

  -- Two windows of a client have one key exactly when they are the same.
  text_eq-limit_key :
      (bucket address : Text) (m n : ℕ)
      → ReadsNumbers js
      → text_eq (limit_key js bucket address m) (limit_key js bucket address n) ≡ (m == n)
  text_eq-limit_key bucket address m n reads =
      text_eq-append bucket _ _ ∙ (text_eq-append address _ _ ∙ text_eq-to_text m n reads)

module _ {S : Type 0} (js : Runtime) where
  -- In a run of calls at these times, after these values have been put, no call of the namespace fails,
  -- and each reads the value that was put last at its key.
  abbrev pub IsUpToDate :
      RateLimitDeps S → KvStore S → Text → Text → List (Text × Text) → List ℕ → S → Type 0
  IsUpToDate deps kv bucket address puts [] s = Unit {0}
  IsUpToDate deps kv bucket address puts (now ∷ nows) s =
      let key = key_of js deps now bucket address in
      let value = js.to_text (count_of js (last_put key puts) + 1) in
      let written = kv.put s key value (window_length deps + 1) in
      (kv.get s key ≡ some (last_put key puts))
      × ((written.1 ≡ true)
          × IsUpToDate deps kv bucket address ((key, value) ∷ puts) nows written.0)

  settle_put-allowed :
      (deps : RateLimitDeps S) (now next : ℕ) (written : S × Bool)
      → written.1 ≡ true
      → let r = settle_put js deps now next written in
        (r.0.allowed ≡ leb next deps.max_count) × (r.1 ≡ written.0)
  unfolding settle_put
  settle_put-allowed deps now next (s, false) h = absurd cc
  settle_put-allowed deps now next (s, true) h = elim (Bool-cases (ltb deps.max_count next)) [
    | inl over ↦ rw over (ground arith, refl)
    | inr below ↦ rw below (ground arith, refl)
  ]

  -- One call, with what it reads.
  check_rate_limit-step :
      (deps : RateLimitDeps S) (now : ℕ) (kv : KvStore S) (bucket address : Text) (s : S)
      (raw : Option Text)
      → deps.kv ≡ some kv
      → let key = key_of js deps now bucket address in
        let written = kv.put s key (js.to_text (count_of js raw + 1)) (window_length deps + 1) in
        kv.get s key ≡ some raw
        → written.1 ≡ true
        → let r = check_rate_limit js deps now bucket address s in
          (r.0.allowed ≡ leb (count_of js raw + 1) deps.max_count) × (r.1 ≡ written.0)
  check_rate_limit-step deps now kv bucket address s raw e g w =
      let key = key_of js deps now bucket address in
      let next = count_of js raw + 1 in
      let written = kv.put s key (js.to_text next) (window_length deps + 1) in
      let r : check_rate_limit js deps now bucket address s ≡ settle_put js deps now next written =
        unfold check_rate_limit check_with settle_get in
        (ap (λ o. check_with js deps now o key s) e ∙ ap (settle_get js deps now kv key s) g) in
      rw r (settle_put-allowed deps now next written w)

  -- What has been put counts the calls of each window.
  abbrev Counts : RateLimitDeps S → Text → Text → List (Text × Text) → List ℕ → Type 0
  Counts deps bucket address puts past =
      (w : ℕ)
      → count_of js (last_put (limit_key js bucket address w) puts)
        ≡ in_window (window_length deps) w past

  Counts-put :
      (deps : RateLimitDeps S) (now : ℕ) (bucket address : Text) (puts : List (Text × Text))
      (past : List ℕ)
      → ReadsNumbers js
      → Counts deps bucket address puts past
      → let key = key_of js deps now bucket address in
        Counts deps bucket address
          ((key, js.to_text (count_of js (last_put key puts) + 1)) ∷ puts)
          (now ∷ past)
  Counts-put deps now bucket address puts past reads h w =
      let same = text_eq-limit_key js bucket address (window_of deps now) w reads in
      elim (Bool-cases (window_of deps now == w)) [
        | inl here ↦
            let e : window_of deps now ≡ w = ground arith in
            rw (same, here, reads.0 _, h (window_of deps now), e) (omega arith)
        | inr elsewhere ↦ rw (same, elsewhere) (h w)
      ]

  verdicts-from :
      (deps : RateLimitDeps S) (kv : KvStore S) (bucket address : Text) (puts : List (Text × Text))
      (past nows : List ℕ) (s : S)
      → ReadsNumbers js
      → deps.kv ≡ some kv
      → Counts deps bucket address puts past
      → IsUpToDate deps kv bucket address puts nows s
      → verdicts js deps bucket address nows s
        ≡ first_in_window (window_length deps) deps.max_count past nows
  unfolding verdicts
  verdicts-from deps kv bucket address puts past [] s reads e h fresh = refl
  verdicts-from deps kv bucket address puts past (now ∷ nows) s reads e h (g, (w, fresh)) =
      let key = key_of js deps now bucket address in
      let value = js.to_text (count_of js (last_put key puts) + 1) in
      let (allowed, after) =
        check_rate_limit-step deps now kv bucket address s (last_put key puts) e g w in
      let ih =
        verdicts-from deps kv bucket address ((key, value) ∷ puts) (now ∷ past) nows
          (kv.put s key value (window_length deps + 1)).0 reads e
          (Counts-put deps now bucket address puts past reads h) fresh in
      rw (allowed, after, ih, h (window_of deps now))
        (ap (λ b. b ∷ first_in_window (window_length deps) deps.max_count (now ∷ past) nows)
          (ground arith))

  -- With a namespace, and a runtime that reads every whole number back from its text: in a run of one
  -- client's calls in which no call of the namespace fails and each reads the value that was put last at
  -- its key, with nothing put before the run, a call is allowed exactly when fewer than `max` calls
  -- before it fall into its window of `windowSeconds`, or of one second where that is 0.
  pub verdicts_first :
      (deps : RateLimitDeps S) (kv : KvStore S) (bucket address : Text) (nows : List ℕ) (s : S)
      → ReadsNumbers js
      → deps.kv ≡ some kv
      → IsUpToDate deps kv bucket address [] nows s
      → verdicts js deps bucket address nows s
        ≡ first_in_window (max 1 deps.window_seconds) deps.max_count [] nows
  verdicts_first deps kv bucket address nows s reads e fresh =
      verdicts-from deps kv bucket address [] [] nows s reads e (λ w. rw (reads.1) refl) fresh
