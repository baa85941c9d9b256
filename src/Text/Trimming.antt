-- ===== src/Text/Trimming.antt =====
-- What `trim` leaves at the front.
use mathlib.Core.List.{reverse, reverse_aux}
use proxy_pulse_crunchyroll.Prelude.{ℕ, ◌≡◌, true, false, [], ◌∷◌, ==_iff, if-cases}
use proxy_pulse_crunchyroll.Text.{Text, is_space, trim_start, trim, starts_with, ends_with}

ends_with-reverse_aux :
    (d : ℕ) (s r : Text) → ends_with d r ≡ true → ends_with d (reverse_aux s r) ≡ true
ends_with-reverse_aux d [] r h = h
ends_with-reverse_aux d (c ∷ s) [] h = absurd (cc)
ends_with-reverse_aux d (c ∷ s) (e ∷ r) h = ends_with-reverse_aux d s (c ∷ e ∷ r) h

starts_with-reverse_aux :
    (d : ℕ) (s r : Text) → ends_with d s ≡ true → starts_with d (reverse_aux s r) ≡ true
starts_with-reverse_aux d [] r h = absurd (cc)
starts_with-reverse_aux d (c ∷ []) r h = h
starts_with-reverse_aux d (c ∷ e ∷ s) r h = starts_with-reverse_aux d (e ∷ s) (c ∷ r) h

ends_with-trim_start :
    (d : ℕ) (s : Text)
    → is_space d ≡ false
    → ends_with d s ≡ true
    → ends_with d (trim_start s) ≡ true
unfolding trim_start
ends_with-trim_start d [] n h = absurd (cc)
ends_with-trim_start d (c ∷ []) n h =
    let e = (==_iff c d).0 h in
    if-cases (λ (t : Text). ends_with d t ≡ true) (is_space c) [] (c ∷ []) (λ space. absurd (cc))
      (λ mark. h)
ends_with-trim_start d (c ∷ e ∷ s) n h =
    if-cases (λ (t : Text). ends_with d t ≡ true) (is_space c) _ _
      (λ space. ends_with-trim_start d (e ∷ s) n h) (λ mark. h)

-- A first character that is no white space stays the first.
pub starts_with-trim :
    (d : ℕ) (s : Text) → is_space d ≡ false → starts_with d s ≡ true → starts_with d (trim s) ≡ true
unfolding trim trim_start
starts_with-trim d [] n h = absurd (cc)
starts_with-trim d (c ∷ s) n h =
    let e = (==_iff c d).0 h in
    if-cases (λ (t : Text). starts_with d (reverse (trim_start (reverse t))) ≡ true) (is_space c) _
      _ (λ space. absurd (cc))
      (λ mark.
        starts_with-reverse_aux d (trim_start (reverse (c ∷ s))) []
          (ends_with-trim_start d (reverse (c ∷ s)) n (ends_with-reverse_aux d s (c ∷ []) h)))
