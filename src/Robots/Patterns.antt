-- ===== src/Robots/Patterns.antt =====
-- shared/src/robots.ts: pathMatchesPattern.
use proxy_pulse_crunchyroll.Prelude.{
  ℕ, Bool, true, false, not, ◌&&◌, ◌||◌, [], ◌∷◌, ◌==◌, if◌then◌else◌,
}
use proxy_pulse_crunchyroll.Text.{Text, ends_with, drop_last}

-- `\n`, `\r`, U+2028 and U+2029, which `.` does not match.
abbrev pub is_line_end : ℕ → Bool
is_line_end c = c == 10 || c == 13 || c == 0x2028 || c == 0x2029

-- `pattern` against the start of `s`: `*` stands for any run without line ends, and a `$` that
-- is not the last unit of a pattern still stands for the end.
abbrev pub some_suffix : (Text → Bool) → Text → Bool
some_suffix p [] = p []
some_suffix p (c ∷ s) = p (c ∷ s) || (not (is_line_end c) && some_suffix p s)

abbrev pub is_empty : Text → Bool
is_empty [] = true
is_empty (c ∷ s) = false

abbrev pub step_over : ℕ → (Text → Bool) → Text → Bool
step_over c p [] = false
step_over c p (d ∷ s) = c == d && p s

unfoldable pub matches_from : Bool → Text → Text → Bool
matches_from anchored [] = λ s. if anchored then is_empty s else true
matches_from anchored (c ∷ p) =
    let rest = matches_from anchored p in
    if c == b'*'
    then some_suffix rest
    else if c == b'$'
    then (λ s. is_empty s && rest s)
    else step_over c rest

unfoldable pub path_matches_pattern : Text → Text → Bool
unfolding matches_from
path_matches_pattern path [] = false
path_matches_pattern path (c ∷ p) =
    if ends_with b'$' (c ∷ p)
    then matches_from true (drop_last (c ∷ p)) path
    else matches_from false (c ∷ p) path
