-- ===== src/Ip/Ipv6/Doubles.antt =====
-- shared/src/ip.ts: where parseIpv6 finds the `::` of a written address.
use proxy_pulse_crunchyroll.Prelude.{
  ℕ, ◌≡◌, refl, sym, ap, ◌∙◌, inl, inr, false, ◌&&◌, List, [], ◌∷◌, ◌++◌, append-nil, append_assoc,
  Option, none, some, arith, ◌==◌, is_some, Option-cases, All,
}
use proxy_pulse_crunchyroll.Text.{Text}
use proxy_pulse_crunchyroll.Ip.Ipv6.{second_double, split_double, push_head}
use proxy_pulse_crunchyroll.Ip.Ipv6.Printed.{
  format_group, format_groups, IsGroup, IsDigit, format_group-All,
}

-- A text put in front of the first part.
unfoldable pub push_text : Text → Option (Text × Text) → Option (Text × Text)
push_text p none = none
push_text p (some (h, t)) = some (p ++ h, t)

push_head-push_text :
    (c : ℕ) (p : Text) (o : Option (Text × Text))
    → push_head c (push_text p o) ≡ push_text (c ∷ p) o
unfolding push_text
push_head-push_text c p none = refl
push_head-push_text c p (some (h, t)) = refl

push_text-append :
    (p q : Text) (o : Option (Text × Text)) → push_text p (push_text q o) ≡ push_text (p ++ q) o
unfolding push_text
push_text-append p q none = refl
push_text-append p q (some (h, t)) = ap (λ r. some (r, t)) (sym (append_assoc p q h))

split_double-step :
    (c d : ℕ) (s : Text)
    → (c == b':' && d == b':') ≡ false
    → split_double (c ∷ d ∷ s) ≡ push_head c (split_double (d ∷ s))
unfolding split_double
split_double-step c d s h = rw h refl

-- No `::` begins in a group.
split_double-digits :
    (p : Text) (c : ℕ) (s : Text)
    → All IsDigit p
    → split_double (p ++ (c ∷ s)) ≡ push_text p (split_double (c ∷ s))
unfolding push_text
split_double-digits [] c s h = elim (Option-cases (split_double (c ∷ s))) [
  | inl e ↦ rw e refl
  | inr (o, e) ↦ rw e refl
]
split_double-digits (x ∷ []) c s (h, hs) =
    split_double-step x c s (ground arith)
    ∙ (ap (push_head x) (split_double-digits [] c s hs)
        ∙ push_head-push_text x [] (split_double (c ∷ s)))
split_double-digits (x ∷ y ∷ p) c s (h, hs) =
    split_double-step x y (p ++ (c ∷ s)) (ground arith)
    ∙ (ap (push_head x) (split_double-digits (y ∷ p) c s hs)
        ∙ push_head-push_text x (y ∷ p) (split_double (c ∷ s)))

split_double-last : (p : Text) → All IsDigit p → split_double p ≡ none
split_double-last [] h = unfold split_double in refl
split_double-last (x ∷ []) h = unfold split_double in refl
split_double-last (x ∷ y ∷ p) (h, hs) =
    split_double-step x y p (ground arith) ∙ ap (push_head x) (split_double-last (y ∷ p) hs)

-- A colon in front of a group begins no `::`.
split_double-colon :
    (g : ℕ) (gs : List ℕ) (s : Text)
    → IsGroup g
    → split_double (b':' ∷ (format_groups (g ∷ gs) ++ s))
      ≡ push_head b':' (split_double (format_groups (g ∷ gs) ++ s))
unfolding format_groups format_group
split_double-colon g [] s h =
    let (a, _) = format_group-All g h in
    split_double-step b':' _ _ (unfold format_group in ground arith)
split_double-colon g (k ∷ gs) s h =
    let (a, _) = format_group-All g h in
    split_double-step b':' _ _ (unfold format_group in ground arith)

-- What follows written groups after a colon.
pub split_double-format :
    (gs : List ℕ) (s : Text)
    → All IsGroup gs
    → split_double (format_groups gs ++ (b':' ∷ s))
      ≡ push_text (format_groups gs) (split_double (b':' ∷ s))
unfolding format_groups
split_double-format [] s h = split_double-digits [] b':' s tt
split_double-format (g ∷ []) s (h, hs) =
    split_double-digits (format_group g) b':' s (format_group-All g h)
split_double-format (g ∷ k ∷ gs) s (h, hs) =
    (ap split_double (append_assoc (format_group g) (b':' ∷ format_groups (k ∷ gs)) (b':' ∷ s))
      ∙ (split_double-digits (format_group g) b':' (format_groups (k ∷ gs) ++ (b':' ∷ s))
            (format_group-All g h)
          ∙ (ap (push_text (format_group g)) (
                split_double-colon k gs (b':' ∷ s) (hs.0)
                ∙ (ap (push_head b':') (split_double-format (k ∷ gs) s hs)
                    ∙ push_head-push_text b':' (format_groups (k ∷ gs)) (split_double (b':' ∷ s))))
              ∙ push_text-append (format_group g) (b':' ∷ format_groups (k ∷ gs))
                  (split_double (b':' ∷ s)))))

split_double-colon_only :
    (g : ℕ) (gs : List ℕ)
    → IsGroup g
    → split_double (b':' ∷ format_groups (g ∷ gs))
      ≡ push_head b':' (split_double (format_groups (g ∷ gs)))
split_double-colon_only g gs h = rw append-nil at (split_double-colon g gs [] h)

pub split_double-format_only :
    (gs : List ℕ) → All IsGroup gs → split_double (format_groups gs) ≡ none
unfolding format_groups push_text
split_double-format_only [] h = unfold split_double in refl
split_double-format_only (g ∷ []) (h, hs) =
    split_double-last (format_group g) (format_group-All g h)
split_double-format_only (g ∷ k ∷ gs) (h, hs) =
    (split_double-digits (format_group g) b':' (format_groups (k ∷ gs)) (format_group-All g h)
      ∙ ap (push_text (format_group g)) (
          split_double-colon_only k gs (hs.0)
          ∙ ap (push_head b':') (split_double-format_only (k ∷ gs) hs)))

-- No second `::` is found.
pub second_double-format : (gs : List ℕ) → All IsGroup gs → second_double (format_groups gs) ≡ false
second_double-format [] h = unfold format_groups split_double in refl
second_double-format (g ∷ gs) (h, hs) = ap is_some (
    split_double-colon_only g gs h
    ∙ ap (push_head b':') (split_double-format_only (g ∷ gs) (h, hs)))
