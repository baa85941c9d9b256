-- ===== src/Proxy/Entry/Refusals.antt =====
-- Shapes of entries that are never accepted.
use proxy_pulse_crunchyroll.Prelude.{
  ℕ, ◌≡◌, refl, sym, subst, Bool, true, false, ◌||◌, [], ◌∷◌, Option, none, some, arith, ltb, ◌==◌,
  if-cases, length, any,
}
use proxy_pulse_crunchyroll.Text.{Text, codes, is_space, trim, to_lower, includes, starts_with}
use proxy_pulse_crunchyroll.Robots.{cut, has_prefix}
use proxy_pulse_crunchyroll.Text.Trimming.{starts_with-trim}
use proxy_pulse_crunchyroll.Proxy.{
  ParseFailureReason, invalid_scheme, not_an_entry, ambiguous_format, empty, too_long, Checked,
  refused, alias_of, has_markup, ◌>>=◌, looks_like_markup,
}
use proxy_pulse_crunchyroll.Proxy.Entry.{ParseOptions, scheme_of, scheme_prefix, parse_proxy_entry}

abbrev pub IsRefused {ℓ} : {A : Type ℓ} → Checked A → Type ℓ
IsRefused o = (r : ParseFailureReason) × (o ≡ refused r)

bind-IsRefused {ℓ κ} :
    {A : Type ℓ} {B : Type κ} (m : Checked A) (f : A → Checked B)
    → IsRefused m
    → IsRefused (m >>= f)
bind-IsRefused m f (r, e) = rw e (r, refl)

or-true-left : (a b c d e : Bool) → c ≡ true → (a || b || c || d || e) ≡ true
or-true-left true b c d e h = refl
or-true-left false true c d e h = refl
or-true-left false false true d e h = refl
or-true-left false false false d e h = absurd (cc)

nonempty : (d : ℕ) (s : Text) → starts_with d s ≡ true → (length s == 0) ≡ false
nonempty d [] h = absurd (cc)
nonempty d (c ∷ s) h = ground arith

bracket-markup : (line : Text) → starts_with b'[' (trim line) ≡ true → looks_like_markup line ≡ true
unfolding looks_like_markup
bracket-markup line h =
    rw (nonempty b'[' (trim line) h)
      (or-true-left (has_markup (trim line)) (starts_with b'{' (trim line)) _ _ _ h)

bracket_mark : is_space b'[' ≡ false
unfolding is_space
bracket_mark = refl

module _ (decode : Text → Option Text) where
  -- No entry that starts with a bracket is accepted, so that an IPv6 address in brackets with a port is not.
  pub parse_proxy_entry-bracket :
      (options : ParseOptions) (input : Text)
      → starts_with b'[' (trim input) ≡ true
      → IsRefused (parse_proxy_entry decode options input)
  unfolding parse_proxy_entry
  parse_proxy_entry-bracket options input h =
      let raw = trim input in
      let markup = bracket-markup raw (starts_with-trim b'[' raw bracket_mark h) in
      if-cases IsRefused (length raw == 0) _ _ (λ e. (empty, refl))
        (λ something.
          if-cases IsRefused (ltb 256 (length raw)) _ _ (λ e. (too_long, refl))
            (λ short.
              if-cases IsRefused (any (λ c. c == 9 || c == 10 || c == 13) raw) _ _
                (λ e. (ambiguous_format, refl))
                (λ line.
                  if-cases IsRefused (looks_like_markup raw) _ _ (λ e. (not_an_entry, refl))
                    (λ plain. absurd (cc)))))

  scheme_of-unknown :
      (raw : Text) (name rest : Text)
      → alias_of (to_lower name) ≡ none
      → includes b'@' raw ≡ false
      → IsRefused (scheme_of raw (some (name, rest)))
  scheme_of-unknown raw name rest a n =
      if-cases IsRefused (has_prefix (codes "//") rest) _ _ (λ slashes. rw a (invalid_scheme, refl))
        (λ bare. rw (n, a) (invalid_scheme, refl))

  -- No entry is accepted whose text before the first colon could be a scheme (a letter, and up to fifteen more
  -- letters, digits or signs among `+`, `-` and the dot) but is none that is known, when it has no at sign: so a
  -- short host name with a port is not.
  pub parse_proxy_entry-name :
      (options : ParseOptions) (input name rest : Text)
      → scheme_prefix (cut b':' (trim input)) ≡ some (name, rest)
      → alias_of (to_lower name) ≡ none
      → includes b'@' (trim input) ≡ false
      → IsRefused (parse_proxy_entry decode options input)
  unfolding parse_proxy_entry
  parse_proxy_entry-name options input name rest p a n =
      let raw = trim input in
      if-cases IsRefused (length raw == 0) _ _ (λ e. (empty, refl))
        (λ something.
          if-cases IsRefused (ltb 256 (length raw)) _ _ (λ e. (too_long, refl))
            (λ short.
              if-cases IsRefused (any (λ c. c == 9 || c == 10 || c == 13) raw) _ _
                (λ e. (ambiguous_format, refl))
                (λ line.
                  if-cases IsRefused (looks_like_markup raw) _ _ (λ e. (not_an_entry, refl))
                    (λ plain. bind-IsRefused (scheme_of raw (scheme_prefix (cut b':' raw))) _ (
                      subst (λ o. IsRefused (scheme_of raw o)) (sym p)
                        (scheme_of-unknown raw name rest a n))))))
