-- ===== src/Ip/Ipv4/Canonical.antt =====
-- Each IPv4 address has one literal that is accepted: its dotted decimal form.
use proxy_pulse_crunchyroll.Prelude.{
  ℕ, ◌+◌, ◌/◌, ◌%◌, ◌<◌, ◌≡◌, refl, ◌∙◌, ◌↔◌, List, [], ◌∷◌, ◌++◌, Option, none, some, arith, ltb,
  if◌then◌else◌,
}
use proxy_pulse_crunchyroll.Text.{Text, split, decimal_from}
use proxy_pulse_crunchyroll.Text.Splitting.{NoUnit, join, join-split, split-of_NoUnit, split-append}
use proxy_pulse_crunchyroll.Ip.Ipv4.{Ipv4, parse_octet, quad, quad_of_parts, parse_ipv4}

digit : ℕ → ℕ
digit n = n + b'0'

-- The decimal digits of a number below 1000, with no leading zero.
unfoldable pub format_octet : ℕ → Text
unfolding digit
format_octet n =
    if ltb n 10
    then digit n ∷ []
    else if ltb n 100
    then digit (n / 10) ∷ digit (n % 10) ∷ []
    else digit (n / 100) ∷ digit (n / 10 % 10) ∷ digit (n % 10) ∷ []

parse_octet-format : (n : ℕ) → n < 256 → parse_octet (format_octet n) ≡ some n
unfolding parse_octet format_octet decimal_from
parse_octet-format n h = ground arith

format-parse_octet : (p : Text) (n : ℕ) → parse_octet p ≡ some n → (format_octet n ≡ p) × (n < 256)
unfolding parse_octet format_octet decimal_from
format-parse_octet [] n h = ground arith
format-parse_octet (x ∷ []) n h = ground arith
format-parse_octet (x ∷ y ∷ []) n h = ground arith
format-parse_octet (x ∷ y ∷ z ∷ []) n h = ground arith
format-parse_octet (x ∷ y ∷ z ∷ w ∷ s) n h = ground arith

unfoldable pub format_ipv4 : Ipv4 → Text
format_ipv4 q =
    format_octet q.a
    ++ (b'.' ∷ format_octet q.b ++ (b'.' ∷ format_octet q.c ++ (b'.' ∷ format_octet q.d)))

-- Four numbers that fit a byte.
pub record IsIpv4 (q : Ipv4) : Type 0 where
  pub a : q.a < 256
  pub b : q.b < 256
  pub c : q.c < 256
  pub d : q.d < 256

pub format_octet-NoUnit : (n : ℕ) → n < 256 → NoUnit b'.' (format_octet n)
unfolding format_octet
format_octet-NoUnit n h = ground arith

split-format_ipv4 :
    (q : Ipv4)
    → IsIpv4 q
    → split b'.' (format_ipv4 q)
      ≡ format_octet q.a ∷ format_octet q.b ∷ format_octet q.c ∷ format_octet q.d ∷ []
unfolding format_ipv4
split-format_ipv4 q v =
    rw
      (
        split-append _ _ _ (format_octet-NoUnit q.a v.a),
        split-append _ _ _ (format_octet-NoUnit q.b v.b),
        split-append _ _ _ (format_octet-NoUnit q.c v.c),
        split-of_NoUnit _ _ (format_octet-NoUnit q.d v.d),
      )
      refl

pub parse-format_ipv4 : (q : Ipv4) → IsIpv4 q → parse_ipv4 (format_ipv4 q) ≡ some q
unfolding parse_ipv4
parse-format_ipv4 q v =
    rw
      (
        split-format_ipv4 q v,
        parse_octet-format q.a v.a,
        parse_octet-format q.b v.b,
        parse_octet-format q.c v.c,
        parse_octet-format q.d v.d,
      )
      refl

quad-eq-some :
    (w x y z : Option ℕ) (v : Ipv4)
    → quad w x y z ≡ some v
    → (w ≡ some v.a) × (x ≡ some v.b) × (y ≡ some v.c) × (z ≡ some v.d)
unfolding quad
quad-eq-some (some a) (some b) (some c) (some d) v e = ground arith
quad-eq-some (some a) (some b) (some c) none v e = cc
quad-eq-some (some a) (some b) none z v e = cc
quad-eq-some (some a) none y z v e = cc
quad-eq-some none x y z v e = cc

format_ipv4-quad_of_parts :
    (ps : List Text) (v : Ipv4)
    → quad_of_parts ps ≡ some v
    → (format_ipv4 v ≡ join b'.' ps) × IsIpv4 v
unfolding quad_of_parts format_ipv4 join
format_ipv4-quad_of_parts (p ∷ q ∷ r ∷ s ∷ []) v e =
    let (ea, eb, ec, ed) = quad-eq-some _ _ _ _ v e in
    let (fa, ba) = format-parse_octet p v.a ea in
    let (fb, bb) = format-parse_octet q v.b eb in
    let (fc, bc) = format-parse_octet r v.c ec in
    let (fd, bd) = format-parse_octet s v.d ed in
    (rw (fa, fb, fc, fd) refl, record { a = ba; b = bb; c = bc; d = bd })
format_ipv4-quad_of_parts [] v e = cc
format_ipv4-quad_of_parts (p ∷ []) v e = cc
format_ipv4-quad_of_parts (p ∷ q ∷ []) v e = cc
format_ipv4-quad_of_parts (p ∷ q ∷ r ∷ []) v e = cc
format_ipv4-quad_of_parts (p ∷ q ∷ r ∷ s ∷ t ∷ ps) v e = cc

format-parse_ipv4 : (s : Text) (v : Ipv4) → parse_ipv4 s ≡ some v → (format_ipv4 v ≡ s) × IsIpv4 v
unfolding parse_ipv4
format-parse_ipv4 s v e =
    let (f, b) = format_ipv4-quad_of_parts (split b'.' s) v e in (f ∙ join-split b'.' s, b)

-- A text parses to an address exactly when its numbers fit bytes and the text is its dotted
-- decimal form without leading zeros, so every address has one accepted spelling.
pub parse_ipv4_iff :
    (s : Text) (v : Ipv4) → (parse_ipv4 s ≡ some v) ↔ ((format_ipv4 v ≡ s) × IsIpv4 v)
parse_ipv4_iff s v = (format-parse_ipv4 s v, λ (e, b). rw (← e) (parse-format_ipv4 v b))
