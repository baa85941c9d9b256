-- ===== src/Crunchyroll/Checker/Running/Rate.antt =====
-- How many requests the checks make in a time.
use proxy_pulse_crunchyroll.Prelude.{
  ℕ, ◌+◌, ◌-◌, ◌*◌, ◌≤◌, min, max, ◌≡◌, refl, sym, ap, ◌∙◌, subst, inl, inr, List, [], ◌∷◌, Option,
  arith, if◌then◌else◌, Bool-cases, length, All,
}
use proxy_pulse_crunchyroll.Text.{Text}
use proxy_pulse_crunchyroll.Numbers.{Number}
use proxy_pulse_crunchyroll.Concurrency.TokenBucket.{TokenBucket, try_take, new_bucket}
use proxy_pulse_crunchyroll.Crunchyroll.Checker.{
  CheckConfig, CrunchyrollChecker, Phase, Next, ends, awaits, new_checker, begin_cycle,
}
use proxy_pulse_crunchyroll.Crunchyroll.Checker.Running.{
  Event, new_cycle, called, robots_came, woke, responded, Run, is_request, go_on, step, run_events,
}
use proxy_pulse_crunchyroll.Concurrency.TokenBucket.Rate.{try_take-Taken, mul_gap}
use proxy_pulse_crunchyroll.Crunchyroll.Checker.Running.{start_run}
use proxy_pulse_crunchyroll.Crunchyroll.Checker.Running.Parts.{
  owed, owed_all, Resumed, Entered, refused, admitted, enter-Entered,
}
use proxy_pulse_crunchyroll.Crunchyroll.Checker.Running.Steps.{Remains, step-keeps}

-- A bucket of `rate` shares a millisecond, 60000 of which are a token, that had `tokens` shares at `start`
-- and has paid for `spent` tokens since.
record Paid (rate tokens start spent latest : ℕ) (b : TokenBucket) : Type 0 where
  whole : b.unit ≡ 60000
  steady : b.rate ≡ rate
  early : b.last_refill ≤ latest
  balance : spent * 60000 + b.tokens + start * rate ≤ tokens + b.last_refill * rate

take-Paid :
    (rate tokens start spent latest now : ℕ) (b : TokenBucket)
    → now ≤ latest
    → Paid rate tokens start spent latest b
    → Paid rate tokens start
        (if (try_take now 1 b).1 then spent + 1 else spent)
        latest
        (try_take now 1 b).0
take-Paid rate tokens start spent latest now b t p =
    let f = try_take-Taken now 1 b in
    let r = (try_take now 1 b).0 in
    let before : b.last_refill * b.rate ≡ b.last_refill * rate =
      ap (λ (x : ℕ). b.last_refill * x) p.steady in
    let after : r.last_refill * b.rate ≡ r.last_refill * rate =
      ap (λ (x : ℕ). r.last_refill * x) p.steady in
    let cost : (if (try_take now 1 b).1 then 1 else 0) * b.unit
        ≡ (if (try_take now 1 b).1 then 1 else 0) * 60000 =
      ap (λ (x : ℕ). (if (try_take now 1 b).1 then 1 else 0) * x) p.whole in
    record {
      whole = f.unit ∙ p.whole;
      steady = f.rate ∙ p.steady;
      early = omega (arith, f.last, p.early, t);
      balance = elim (Bool-cases (try_take now 1 b).1) [
        | inl taken ↦
            rw taken (omega (arith, rw taken at f.paid, rw taken at cost, before, after, p.balance))
        | inr none_left ↦
            rw none_left (
              omega (arith, rw none_left at f.paid, rw none_left at cost, before, after, p.balance))
      ];
    }

-- The checks are called at `latest` or before.
abbrev pub IsCalledBy : ℕ → Event → Type 0
IsCalledBy latest (called now) = now ≤ latest
IsCalledBy latest (new_cycle id) = Unit
IsCalledBy latest (robots_came i now fetched) = Unit
IsCalledBy latest (woke i now) = Unit
IsCalledBy latest (responded i now response) = Unit

module _ (N : Number) (rate tokens start latest : ℕ) where
  -- The requests that have been made, and those that checks in flight may still make, are paid for.
  abbrev Solvent : Run N → Type 0
  Solvent r = Paid rate tokens start (r.launched + owed_all N r.flight) latest r.checker.bucket

  fewer :
      (spent less : ℕ) (b c : TokenBucket)
      → c ≡ b
      → less ≤ spent
      → Paid rate tokens start spent latest b
      → Paid rate tokens start less latest c
  fewer spent less b c e l p = subst (Paid rate tokens start less latest) (sym e) (record {
    whole = p.whole;
    steady = p.steady;
    early = p.early;
    balance = omega (arith, p.balance, l);
  })

  go_on-Solvent :
      (due : ℕ) (r : Run N) (others : List (Phase N)) (o : CrunchyrollChecker N × Next N)
      → Solvent r
      → (length r.flight ≡ 1 + length others) × (owed_all N r.flight ≡ due + owed_all N others)
      → Resumed N due r.checker o
      → Solvent (go_on N r others o)
  go_on-Solvent due r others (c, ends result) k (l, w) f =
      fewer (r.launched + owed_all N r.flight) (r.launched + owed_all N others) _ _ f.bucket
        (omega (arith, w)) k
  go_on-Solvent due r others (c, awaits phase) k (l, w) f =
      fewer (r.launched + owed_all N r.flight)
        ((if is_request N phase then r.launched + 1 else r.launched)
          + (owed N phase + owed_all N others))
        _ _ f.bucket (let owes = f.owes in ground (arith, w, owes)) k

  let_in-Solvent :
      (now : ℕ) (r : Run N) (o : CrunchyrollChecker N × Next N)
      → now ≤ latest
      → Solvent r
      → Entered N now r.checker o
      → Solvent (go_on N r r.flight o)
  let_in-Solvent now r (c, ends result) t k (refused e f (inl same) h i) =
      fewer _ _ _ _ same (omega arith) k
  let_in-Solvent now r (c, ends result) t k (refused e f (inr taken) h i) =
      fewer _ (r.launched + owed_all N r.flight) _ _ taken (ground arith) (
        take-Paid rate tokens start (r.launched + owed_all N r.flight) latest now r.checker.bucket t
          k)
  let_in-Solvent now r (c, ends result) t k (admitted e f g h i j l) = absurd (omega arith)
  let_in-Solvent now r (c, awaits phase) t k (refused e f g h i) = absurd (omega arith)
  let_in-Solvent now r (c, awaits phase) t k (admitted e f g h i j l) =
      fewer _
        ((if is_request N phase then r.launched + 1 else r.launched)
          + (owed N phase + owed_all N r.flight))
        _ _ i (ground (arith, h, j, l))
        (take-Paid rate tokens start (r.launched + owed_all N r.flight) latest now r.checker.bucket
          t k)

  restart-Solvent :
      (r : Run N) (id : Text)
      → Solvent r
      → Solvent (record r { checker = begin_cycle N id r.checker })
  unfolding begin_cycle
  restart-Solvent r id k = k

  module _ (finite_number : Text → Option N.Num) (date_parse : Text → Option N.Num) where
    step-Solvent :
        (r : Run N) (event : Event)
        → IsCalledBy latest event
        → Solvent r
        → Solvent (step N finite_number date_parse r event)
    step-Solvent r event t k =
        step-keeps N finite_number date_parse Solvent go_on-Solvent r event k (remains event t)
      where
        remains :
            (e : Event)
            → IsCalledBy latest e
            → Remains N finite_number date_parse Solvent go_on-Solvent r e
        remains (new_cycle id) h = restart-Solvent r id k
        remains (called now) h = let_in-Solvent now r _ h k (enter-Entered N now r.checker)
        remains (robots_came i now fetched) h = tt
        remains (woke i now) h = tt
        remains (responded i now response) h = tt

    run_events-Solvent :
        (r : Run N) (events : List Event)
        → All (IsCalledBy latest) events
        → Solvent r
        → Solvent (run_events N finite_number date_parse r events)
    unfolding run_events
    run_events-Solvent r [] t k = k
    run_events-Solvent r (event ∷ events) (t, ts) k =
        run_events-Solvent (step N finite_number date_parse r event) events ts
          (step-Solvent r event t k)

-- However the checks overlap, those that are called from `start` to `latest` make no more requests than the
-- tokens of a full bucket, of which there are at most ten, and `rateLimitPerMinute` for each minute.
pub run_events_rate :
    (N : Number) (finite_number date_parse : Text → Option N.Num) (config : CheckConfig)
    (start latest : ℕ) (events : List Event)
    → start ≤ latest
    → All (IsCalledBy latest) events
    → let per_minute = max 1 config.rate_limit_per_minute in
      (run_events N finite_number date_parse (start_run N config start) events).launched * 60000
      ≤ min 10 per_minute * 60000 + (latest - start) * per_minute
unfolding new_checker new_bucket
run_events_rate N finite_number date_parse config start latest events later t =
    let per_minute = max 1 config.rate_limit_per_minute in
    let r = run_events N finite_number date_parse (start_run N config start) events in
    let k =
      run_events-Solvent N per_minute (min 10 per_minute * 60000) start latest finite_number
        date_parse (start_run N config start) events t
        (record { whole = refl; steady = refl; early = later; balance = omega arith }) in
    let gap = mul_gap start latest per_minute later in
    let grown = mul_gap r.checker.bucket.last_refill latest per_minute k.early in
    omega (arith, k.balance, gap, grown)
