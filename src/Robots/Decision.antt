-- ===== src/Robots/Decision.antt =====
-- What a decision on a path amounts to.
use proxy_pulse_crunchyroll.Prelude.{
  ℕ, suc, ◌<◌, ◌≤◌, max, ◌≡◌, refl, ap, ◌∙◌, ◌≢◌, ◌↔◌, ◌⊎◌, inl, inr, true, false, ◌&&◌, List, [],
  ◌∷◌, Option, none, some, arith, ◌==◌, if◌then◌else◌, Bool-cases, Option-cases, length,
}
use proxy_pulse_crunchyroll.Text.{Text, ends_with}
use proxy_pulse_crunchyroll.Text.Splitting.{NoUnit}
use proxy_pulse_crunchyroll.Robots.{
  RobotsRules, answer, has_prefix, best_match, decide_path, parse_robots, evaluate_robots,
}
use proxy_pulse_crunchyroll.Robots.Patterns.{matches_from, path_matches_pattern}

-- One more than the length of the longest pattern that matches, and 0 where none does.
abbrev pub longest : Text → List Text → ℕ
longest path [] = 0
longest path (p ∷ ps) =
    max (if path_matches_pattern path p then suc (length p) else 0) (longest path ps)

abbrev rank : Option ℕ → ℕ
rank none = 0
rank (some n) = suc n

best_match-rank :
    (path : Text) (best : Option ℕ) (ps : List Text)
    → rank (best_match path best ps) ≡ max (rank best) (longest path ps)
unfolding best_match
best_match-rank path best [] = ground arith
best_match-rank path none (p ∷ ps) = elim (Bool-cases (path_matches_pattern path p)) [
  | inl h ↦ rw h (best_match-rank path (some (length p)) ps ∙ ground arith)
  | inr h ↦ rw h (best_match-rank path none ps ∙ ground arith)
]
best_match-rank path (some m) (p ∷ ps) = elim (Bool-cases (path_matches_pattern path p)) [
  | inl h ↦ rw h (best_match-rank path (some (max m (length p))) ps ∙ ground arith)
  | inr h ↦ rw h (best_match-rank path (some m) ps ∙ ground arith)
]

-- A path is allowed exactly when no `disallow` pattern matches it, or some matching `allow` pattern
-- is longer than every matching `disallow` pattern.
pub decide_path_iff :
    {D : Type 0} (path : Text) (rules : RobotsRules D)
    → ((decide_path path rules).0 ≡ true) ↔ (
        (longest path rules.disallow ≡ 0)
        ⊎ (longest path rules.disallow < longest path rules.allow))
unfolding decide_path
decide_path_iff path rules =
    let a = best_match-rank path none rules.allow in
    let d = best_match-rank path none rules.disallow in
    elim (Option-cases (best_match path none rules.allow)) [
      | inl ea ↦ elim (Option-cases (best_match path none rules.disallow)) [
        | inl ed ↦ ground (arith, a, d, ea, ed)
        | inr (n, ed) ↦ ground (arith, a, d, ea, ed)
      ]
      | inr (m, ea) ↦ elim (Option-cases (best_match path none rules.disallow)) [
        | inl ed ↦ ground (arith, a, d, ea, ed)
        | inr (n, ed) ↦ ground (arith, a, d, ea, ed)
      ]
    ]

-- Of the answers to a request for robots.txt, exactly these let a path be probed: 404, 410, and
-- everything from 500 on; and one from 200 to 399 whose rules for the agent leave the path free or
-- allow it by a pattern longer than any that forbids it.
pub evaluate_robots_iff :
    {D : Type 0} (finite_number : Text → Option D) (path user_agent : Text) (status : ℕ)
    (text : Text)
    → let rules = parse_robots finite_number text user_agent in
      ((evaluate_robots finite_number path user_agent (answer status text)).allowed ≡ true) ↔ (
        (status ≡ 404)
        ⊎ ((status ≡ 410)
            ⊎ ((500 ≤ status)
                ⊎ ((200 ≤ status)
                    × ((status < 400)
                        × ((longest path rules.disallow ≡ 0)
                            ⊎ (longest path rules.disallow < longest path rules.allow)))))))
unfolding evaluate_robots
evaluate_robots_iff finite_number path user_agent status text =
    let d = decide_path_iff path (parse_robots finite_number text user_agent) in ground (arith, d)

not_equal : (a b : ℕ) → a ≢ b → (a == b) ≡ false
not_equal a b h = ground arith

matches_from-literal :
    (p s : Text) → NoUnit b'*' p → NoUnit b'$' p → matches_from false p s ≡ has_prefix p s
unfolding matches_from
matches_from-literal [] s h k = refl
matches_from-literal (c ∷ p) [] (n, h) (m, k) = rw (not_equal c b'*' n, not_equal c b'$' m) refl
matches_from-literal (c ∷ p) (d ∷ s) (n, h) (m, k) =
    rw (not_equal c b'*' n, not_equal c b'$' m)
      (ap (λ b. (c == d) && b) (matches_from-literal p s h k))

ends_with-NoUnit : (d : ℕ) (p : Text) → NoUnit d p → ends_with d p ≡ false
ends_with-NoUnit d [] h = refl
ends_with-NoUnit d (c ∷ []) (n, h) = ground arith
ends_with-NoUnit d (c ∷ e ∷ p) (n, h) = ends_with-NoUnit d (e ∷ p) h

-- A pattern of at least one unit, without `*` and `$`, matches exactly the paths that start with it.
pub path_matches_pattern-literal :
    (path p : Text) (c : ℕ)
    → NoUnit b'*' (c ∷ p)
    → NoUnit b'$' (c ∷ p)
    → path_matches_pattern path (c ∷ p) ≡ has_prefix (c ∷ p) path
unfolding path_matches_pattern
path_matches_pattern-literal path p c h k =
    rw (ends_with-NoUnit b'$' (c ∷ p) k) (matches_from-literal (c ∷ p) path h k)
