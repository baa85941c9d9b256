-- ===== src/Manager/Service/Planned.antt =====
-- What planService does to the rows.
use proxy_pulse_crunchyroll.Prelude.{
  ℕ, ◌≡◌, refl, sym, ap, ◌∙◌, subst, inl, inr, List, [], ◌∷◌, Option, some, arith, if◌then◌else◌,
  Option-cases, All,
}
use proxy_pulse_crunchyroll.Text.{Text}
use proxy_pulse_crunchyroll.Numbers.{Number}
use proxy_pulse_crunchyroll.Types.{active}
use proxy_pulse_crunchyroll.Scoring.Bounds.{Within, combine_scores-Within}
use proxy_pulse_crunchyroll.Db.{ProxyRow}
use proxy_pulse_crunchyroll.Manager.Records.{ServiceOutcome, ServiceStageResult, WorkerConfig}
use proxy_pulse_crunchyroll.Manager.{by_id}
use proxy_pulse_crunchyroll.Manager.Service.{service_outcome_of, add_planned, plan_service}

module _ (N : Number) where
  -- A score from 0 to 100 for a row of the table, which becomes active or keeps its status, by the
  -- service's verdict.
  abbrev pub IsPlanned : List (ProxyRow N) → ServiceOutcome N → Type 0
  IsPlanned rows o =
      Within N 0 100 o.score
      × ((row : ProxyRow N) × ((by_id N o.id rows ≡ some row)
            × (o.status_next ≡ (if o.passed then active else row.status))))

  by_id-id :
      (rows : List (ProxyRow N)) (i : ℕ) (row : ProxyRow N) → by_id N i rows ≡ some row → row.id ≡ i
  unfolding by_id
  by_id-id [] i row h = absurd cc
  by_id-id (r ∷ rows) i row h = grind (arith, by_id-id rows i row, h)

  service_outcome_of-IsPlanned :
      (w : WorkerConfig N) (rows : List (ProxyRow N)) (row : ProxyRow N) (r : ServiceStageResult N)
      (cycle_id : Text) (now : ℕ)
      → by_id N r.proxy_id rows ≡ some row
      → IsPlanned rows (service_outcome_of N w row r cycle_id now)
  unfolding service_outcome_of
  service_outcome_of-IsPlanned w rows row r cycle_id now h = (
    combine_scores-Within N _ r.quality _,
    (row, (ap (λ i. by_id N i rows) (by_id-id rows r.proxy_id row h) ∙ h, refl)),
  )

  -- Whatever the service stage reports, every planned outcome belongs to a row of the table and has a score
  -- from 0 to 100; its row becomes active where the service has passed it, and keeps its status otherwise.
  pub plan_service-IsPlanned :
      (w : WorkerConfig N) (rows : List (ProxyRow N)) (results : List (ServiceStageResult N))
      (cycle_id : Text) (now : ℕ)
      → All (IsPlanned rows) (plan_service N w rows results cycle_id now)
  unfolding plan_service
  plan_service-IsPlanned w rows [] cycle_id now = tt
  plan_service-IsPlanned w rows (r ∷ rs) cycle_id now =
      let rest = plan_service-IsPlanned w rows rs cycle_id now in
      let added : Option (ProxyRow N) → Type 0 = λ o.
        All (IsPlanned rows)
          (add_planned N w r cycle_id now (plan_service N w rows rs cycle_id now) o) in
      elim (Option-cases (by_id N r.proxy_id rows)) [
        | inl missing ↦ subst added (sym missing) rest
        | inr (row, found) ↦
            subst added (sym found)
              (service_outcome_of-IsPlanned w rows row r cycle_id now found, rest)
      ]
