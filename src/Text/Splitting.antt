-- ===== src/Text/Splitting.antt =====
-- Splitting at a separator, and joining again.
use proxy_pulse_crunchyroll.Prelude.{ℕ, ◌≡◌, refl, ◌≢◌, List, [], ◌∷◌, ◌++◌, arith}
use proxy_pulse_crunchyroll.Text.{Text, push_front, split}

abbrev pub NoUnit : ℕ → Text → Type 0
NoUnit d [] = Unit {0}
NoUnit d (c ∷ s) = (c ≢ d) × NoUnit d s

unfoldable pub join : ℕ → List Text → Text
join d [] = []
join d (p ∷ []) = p
join d (p ∷ q ∷ ps) = p ++ (d ∷ join d (q ∷ ps))

split-ne-nil : (d : ℕ) (s : Text) → split d s ≢ []
unfolding split
split-ne-nil d [] = λ e. cc
split-ne-nil d (c ∷ s) = ground arith

join-push_front : (d c : ℕ) (ps : List Text) → ps ≢ [] → join d (push_front c ps) ≡ c ∷ join d ps
unfolding join
join-push_front d c [] h = absurd (h refl)
join-push_front d c (p ∷ []) h = refl
join-push_front d c (p ∷ q ∷ ps) h = refl

join-cons_nil : (d : ℕ) (ps : List Text) → ps ≢ [] → join d ([] ∷ ps) ≡ d ∷ join d ps
unfolding join
join-cons_nil d [] h = absurd (h refl)
join-cons_nil d (p ∷ ps) h = refl

pub join-split : (d : ℕ) (s : Text) → join d (split d s) ≡ s
unfolding split
join-split d [] = unfold join in refl
join-split d (c ∷ s) = ground (
  arith,
  join-cons_nil d (split d s) (split-ne-nil d s),
  join-push_front d c (split d s) (split-ne-nil d s),
  join-split d s,
)

pub split-of_NoUnit : (d : ℕ) (s : Text) → NoUnit d s → split d s ≡ s ∷ []
unfolding split
split-of_NoUnit d [] h = refl
split-of_NoUnit d (c ∷ s) (n, h) = ground (arith, split-of_NoUnit d s h)

pub split-append : (d : ℕ) (p s : Text) → NoUnit d p → split d (p ++ (d ∷ s)) ≡ p ∷ split d s
unfolding split
split-append d [] s h = ground arith
split-append d (c ∷ p) s (n, h) = ground (arith, split-append d p s h)
