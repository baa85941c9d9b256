-- ===== src/Cycle/Outcomes.antt =====
-- worker/src/pipeline/cycle.ts: what holds of the state after a step of the cycle, whether it has
-- given a value or has thrown.
use proxy_pulse_crunchyroll.Prelude.{
  ◌≡◌, sym, subst, Bool, true, false, Option, none, some, if◌then◌else◌,
}
use proxy_pulse_crunchyroll.Numbers.{Number}
use proxy_pulse_crunchyroll.Db.Sweeps.{Table}
use proxy_pulse_crunchyroll.Cycle.{
  CycleReport, Call, Fault, Deps, CycleState, CycleStep, StepResult, ok, thrown, next, pure, modify,
  perform, call, ◌>>=◌,
}
use proxy_pulse_crunchyroll.Cycle.Stages.{update_report, query}

module _ {N : Number} where
  abbrev pub Holds {ℓ} :
      {A : Type ℓ}
      → (A → CycleState N → Type 0)
      → (CycleState N → Type 0)
      → StepResult A × CycleState N
      → Type 0
  Holds P Q (ok a, s) = P a s
  Holds P Q (thrown m, s) = Q s

  pub next-Holds {ℓ κ} :
      {A : Type ℓ} {B : Type κ} (P : A → CycleState N → Type 0) (Q : CycleState N → Type 0)
      (R : B → CycleState N → Type 0) (f : A → CycleStep N B) (r : StepResult A × CycleState N)
      → Holds P Q r
      → ((a : A) (s : CycleState N) → P a s → Holds R Q (f a s))
      → Holds R Q (next f r)
  next-Holds P Q R f (ok a, s) h k = k a s h
  next-Holds P Q R f (thrown m, s) h k = h

  perform-Holds {ℓ} :
      {A : Type ℓ} (P : A → CycleState N → Type 0) (Q : CycleState N → Type 0)
      (o : Option (Fault N)) (step : CycleStep N A) (s : CycleState N)
      → ((f : Fault N) → Q (record s { table = f.left s.table }))
      → Holds P Q (step s)
      → Holds P Q (perform o step s)
  perform-Holds P Q none step s h k = k
  perform-Holds P Q (some f) step s h k = h f

  -- A call either rejects or does what it does.
  pub call-Holds {ℓ} :
      {A : Type ℓ} (P : A → CycleState N → Type 0) (Q : CycleState N → Type 0) (deps : Deps N)
      (c : Call) (step : CycleStep N A) (s : CycleState N)
      → ((f : Fault N) → Q (record s { table = f.left s.table }))
      → Holds P Q (step s)
      → Holds P Q (call deps c step s)
  unfolding call
  call-Holds P Q deps c step s h k = perform-Holds P Q (deps.fault c) step s h k

  pub bind-Holds {ℓ κ} :
      {A : Type ℓ} {B : Type κ} (P : A → CycleState N → Type 0) (Q : CycleState N → Type 0)
      (R : B → CycleState N → Type 0) (m : CycleStep N A) (f : A → CycleStep N B) (s : CycleState N)
      → Holds P Q (m s)
      → ((a : A) (t : CycleState N) → P a t → Holds R Q (f a t))
      → Holds R Q ((m >>= f) s)
  unfolding ◌>>=◌
  bind-Holds P Q R m f s h k = next-Holds P Q R f (m s) h k

  -- What holds on both ends holds of the state.
  pub Holds-state {ℓ} :
      {A : Type ℓ} (P : CycleState N → Type 0) (r : StepResult A × CycleState N)
      → Holds (λ _ t. P t) P r
      → P r.1
  Holds-state P (ok a, s) h = h
  Holds-state P (thrown m, s) h = h

  -- Two properties of one outcome.
  pub both-Holds {ℓ} :
      {A : Type ℓ} (P R : CycleState N → Type 0) (Q S : CycleState N → Type 0)
      (r : StepResult A × CycleState N)
      → Holds (λ _ t. P t) Q r
      → Holds (λ _ t. R t) S r
      → Holds (λ _ t. P t × R t) (λ t. Q t × S t) r
  both-Holds P R Q S (ok a, s) h k = (h, k)
  both-Holds P R Q S (thrown m, s) h k = (h, k)

  -- A step that, when it gives a value, leads from one property of the state to another.
  pub record Leads {ℓ} {A : Type ℓ} (P R : CycleState N → Type 0) (step : CycleStep N A)
      : Type 0 where
    pub led : (s : CycleState N) → P s → Holds (λ _ t. R t) (λ _. Unit {0}) (step s)

  pub bind-Leads {ℓ κ} :
      {A : Type ℓ} {B : Type κ} {P R S : CycleState N → Type 0} {m : CycleStep N A}
      {f : A → CycleStep N B}
      → Leads P R m
      → ((a : A) → Leads R S (f a))
      → Leads P S (m >>= f)
  bind-Leads {R = R} {S = S} h k = record {
    led = λ s p.
        bind-Holds (λ _ t. R t) (λ _. Unit {0}) (λ _ t. S t) _ _ s (h.led s p)
          (λ a t r. (k a).led t r);
  }

  pub call-Leads {ℓ} :
      {A : Type ℓ} {P R : CycleState N → Type 0} (deps : Deps N) (c : Call) {step : CycleStep N A}
      → Leads P R step
      → Leads P R (call deps c step)
  call-Leads {R = R} deps c h = record {
    led = λ s p. call-Holds (λ _ t. R t) (λ _. Unit {0}) _ _ _ s (λ f. tt) (h.led s p);
  }

  pub modify-Leads :
      {P R : CycleState N → Type 0} (f : CycleState N → CycleState N)
      → ((s : CycleState N) → P s → R (f s))
      → Leads P R (modify f)
  unfolding modify
  modify-Leads f h = record { led = h }

  pub query-Leads {ℓ} :
      {A : Type ℓ} {P : CycleState N → Type 0} (f : Table N → A) → Leads P P (query f)
  unfolding query
  query-Leads f = record { led = λ s p. p }

  pub pure-Leads {ℓ} : {A : Type ℓ} {P : CycleState N → Type 0} (a : A) → Leads P P (pure a)
  unfolding pure
  pure-Leads a = record { led = λ s p. p }

  pub if-Leads {ℓ} :
      {A : Type ℓ} {P R : CycleState N → Type 0} (b : Bool) {m n : CycleStep N A}
      → Leads P R m
      → Leads P R n
      → Leads P R (if b then m else n)
  if-Leads true h k = h
  if-Leads false h k = k

  -- A step that keeps a property of the report.
  pub record Keeps {ℓ} {A : Type ℓ} (I : CycleReport → Type 0) (step : CycleStep N A) : Type 0 where
    pub kept :
        (s : CycleState N) → I s.report → Holds (λ _ t. I t.report) (λ t. I t.report) (step s)

  module _ {I : CycleReport → Type 0} where
    pub bind-Keeps {ℓ κ} :
        {A : Type ℓ} {B : Type κ} {m : CycleStep N A} {f : A → CycleStep N B}
        → Keeps I m
        → ((a : A) → Keeps I (f a))
        → Keeps I (m >>= f)
    bind-Keeps h k = record {
      kept = λ s i.
          bind-Holds (λ _ t. I t.report) (λ t. I t.report) (λ _ t. I t.report) _ _ s (h.kept s i)
            (λ a t j. (k a).kept t j);
    }

    pub call-Keeps {ℓ} :
        {A : Type ℓ} (deps : Deps N) (c : Call) {step : CycleStep N A}
        → Keeps I step
        → Keeps I (call deps c step)
    call-Keeps deps c h = record {
      kept = λ s i. call-Holds (λ _ t. I t.report) (λ t. I t.report) _ _ _ s (λ f. i) (h.kept s i);
    }

    pub update-Keeps :
        (f : CycleReport → CycleReport)
        → ((r : CycleReport) → I r → I (f r))
        → Keeps I (modify (update_report f))
    unfolding modify
    update-Keeps f h = record { kept = λ s i. h s.report i }

    -- A change of the rest of the state.
    pub modify-Keeps :
        (f : CycleState N → CycleState N)
        → ((s : CycleState N) → (f s).report ≡ s.report)
        → Keeps I (modify f)
    unfolding modify
    modify-Keeps f h = record { kept = λ s i. subst I (sym (h s)) i }

    pub query-Keeps {ℓ} : {A : Type ℓ} (f : Table N → A) → Keeps I (query f)
    unfolding query
    query-Keeps f = record { kept = λ s i. i }

    pub pure-Keeps {ℓ} : {A : Type ℓ} (a : A) → Keeps I (pure a)
    unfolding pure
    pure-Keeps a = record { kept = λ s i. i }

    pub if-Keeps {ℓ} :
        {A : Type ℓ} (b : Bool) {m n : CycleStep N A}
        → Keeps I m
        → Keeps I n
        → Keeps I (if b then m else n)
    if-Keeps true h k = h
    if-Keeps false h k = k
