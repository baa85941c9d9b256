-- ===== src/RateLimit/Refusals.antt =====
-- What a refusal by the limiter says.
use proxy_pulse_crunchyroll.Prelude.{
  ℕ, ◌+◌, ◌<◌, ◌≡◌, refl, sym, ap, ◌∙◌, inl, inr, Bool, true, false, Option, none, some, arith,
  Option-cases,
}
use proxy_pulse_crunchyroll.Text.{Text}
use proxy_pulse_crunchyroll.RateLimit.{
  KvStore, Runtime, RateLimitDeps, key_of, count_of, settle_put, settle_get, check_with,
  check_rate_limit,
}

module _ {S : Type 0} (js : Runtime) where
  settle_put-refused :
      (deps : RateLimitDeps S) (now next : ℕ) (written : S × Bool)
      → (settle_put js deps now next written).0.allowed ≡ false
      → (written.1 ≡ true) × (deps.max_count < next)
  unfolding settle_put
  settle_put-refused deps now next (s, false) h = absurd cc
  settle_put-refused deps now next (s, true) h = ground (arith, h)

  settle_get-refused :
      (deps : RateLimitDeps S) (now : ℕ) (kv : KvStore S) (key : Text) (s : S)
      (read : Option (Option Text))
      → (settle_get js deps now kv key s read).0.allowed ≡ false
      → (raw : Option Text) × ((read ≡ some raw) × (deps.max_count < count_of js raw + 1))
  unfolding settle_get
  settle_get-refused deps now kv key s none h = absurd cc
  settle_get-refused deps now kv key s (some raw) h =
      (raw, (refl, (settle_put-refused deps now _ _ h).1))

  -- Whatever the namespace does, a call is refused only where there is one, the count could be read,
  -- and this call goes beyond the maximum.
  pub check_rate_limit-refused :
      (deps : RateLimitDeps S) (now : ℕ) (bucket address : Text) (s : S)
      → (check_rate_limit js deps now bucket address s).0.allowed ≡ false
      → (kv : KvStore S) × ((raw : Option Text) × ((deps.kv ≡ some kv)
            × ((kv.get s (key_of js deps now bucket address) ≡ some raw)
                × (deps.max_count < count_of js raw + 1))))
  unfolding check_rate_limit
  check_rate_limit-refused deps now bucket address s h =
      let key = key_of js deps now bucket address in
      elim (Option-cases deps.kv) [
        | inl missing ↦
            let e = ap (λ o. (check_with js deps now o key s).0.allowed) missing in
            absurd (unfold check_with in cc)
        | inr (kv, e) ↦
            let f = ap (λ o. (check_with js deps now o key s).0.allowed) e in
            let (raw, (g, over)) =
              settle_get-refused deps now kv key s (kv.get s key)
                (unfold check_with in sym f ∙ h) in
            (kv, (raw, (e, (g, over))))
      ]
