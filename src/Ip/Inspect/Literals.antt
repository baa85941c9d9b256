-- ===== src/Ip/Inspect/Literals.antt =====
-- The policy at texts of digits and dots: dotted quads and their abbreviations.
use proxy_pulse_crunchyroll.Prelude.{
  ℕ, ◌<◌, ◌≡◌, refl, ◌≢◌, true, false, not, ◌||◌, [], ◌∷◌, ◌++◌, none, some, arith, ◌==◌, any, All,
  All-append,
}
use mathlib.Core.List.{reverse, reverse-cons, reverse-reverse}
use proxy_pulse_crunchyroll.Text.{
  Text, is_digit, is_space, includes, trim, trim_start, lower, to_lower, split, ends_with,
  decimal_from,
}
use proxy_pulse_crunchyroll.Text.Splitting.{split-of_NoUnit, split-append}
use proxy_pulse_crunchyroll.Ip.Ipv4.{Ipv4, parse_ipv4}
use proxy_pulse_crunchyroll.Ip.Ipv4.Canonical.{
  format_octet, format_ipv4, IsIpv4, parse-format_ipv4, format_octet-NoUnit,
}
use proxy_pulse_crunchyroll.Ip.Classify.{is_blocked, classify_v4}
use proxy_pulse_crunchyroll.Ip.Classify.Ranges.{in_block, blocked_blocks, classify_v4-blocked}
use proxy_pulse_crunchyroll.Ip.Inspect.{
  inspect_address, inspect_raw, inspect_other, v4_result, is_proxy_endpoint_allowed, strip_brackets,
  looks_like_non_canonical_ip_literal, suspicious_labels, is_numeric_label, is_suspicious,
}

-- A digit or a dot.
abbrev IsPlain : ℕ → Type 0
IsPlain c = (is_digit c || c == b'.') ≡ true

is_space-plain : (c : ℕ) → IsPlain c → is_space c ≡ false
unfolding is_space
is_space-plain c h = ground arith

trim_start-plain : (s : Text) → All IsPlain s → trim_start s ≡ s
unfolding trim_start
trim_start-plain [] h = refl
trim_start-plain (c ∷ s) (h, hs) = rw (is_space-plain c h) refl

reverse-All : (s : Text) → All IsPlain s → All IsPlain (reverse s)
reverse-All [] h = tt
reverse-All (c ∷ s) (h, hs) =
    rw (reverse-cons c s) (All-append IsPlain (reverse s) (c ∷ []) (reverse-All s hs) (h, tt))

trim-plain : (s : Text) → All IsPlain s → trim s ≡ s
unfolding trim
trim-plain s h =
    rw (trim_start-plain s h, trim_start-plain (reverse s) (reverse-All s h)) (reverse-reverse s)

ends_with-plain : (s : Text) → All IsPlain s → ends_with b']' s ≡ false
ends_with-plain [] h = refl
ends_with-plain (c ∷ []) h = ground arith
ends_with-plain (c ∷ d ∷ s) (h, hs) = ends_with-plain (d ∷ s) hs

strip_brackets-plain : (s : Text) → All IsPlain s → strip_brackets s ≡ s
unfolding strip_brackets
strip_brackets-plain [] h = refl
strip_brackets-plain (c ∷ s) (h, hs) = ground (arith, ends_with-plain (c ∷ s) (h, hs))

to_lower-plain : (s : Text) → All IsPlain s → to_lower s ≡ s
unfolding to_lower lower
to_lower-plain [] h = refl
to_lower-plain (c ∷ s) (h, hs) = ground (arith, to_lower-plain s hs)

normal-plain : (s : Text) → All IsPlain s → to_lower (strip_brackets (trim s)) ≡ s
normal-plain s h = rw (trim-plain s h, strip_brackets-plain s h) (to_lower-plain s h)

format_octet-IsPlain : (n : ℕ) → n < 256 → All IsPlain (format_octet n)
unfolding format_octet
format_octet-IsPlain n h = ground arith

format_ipv4-IsPlain : (q : Ipv4) → IsIpv4 q → All IsPlain (format_ipv4 q)
unfolding format_ipv4
format_ipv4-IsPlain q v = All-append IsPlain (format_octet q.a) _ (format_octet-IsPlain q.a v.a) (
  refl,
  All-append IsPlain (format_octet q.b) _ (format_octet-IsPlain q.b v.b) (
    refl,
    All-append IsPlain (format_octet q.c) _ (format_octet-IsPlain q.c v.c)
        (refl, format_octet-IsPlain q.d v.d),
  ),
)

v4_verdict_of :
    (raw : Text) (q : Ipv4)
    → parse_ipv4 raw ≡ some q
    → (inspect_raw raw).blocked ≡ is_blocked (classify_v4 q)
unfolding inspect_raw parse_ipv4 split
v4_verdict_of [] q e = cc
v4_verdict_of (c ∷ s) q e = rw (e, v4_result) refl

inspect_address-format :
    (q : Ipv4) → IsIpv4 q → (inspect_address (format_ipv4 q)).blocked ≡ is_blocked (classify_v4 q)
unfolding inspect_address
inspect_address-format q v =
    rw (normal-plain (format_ipv4 q) (format_ipv4-IsPlain q v))
      (v4_verdict_of (format_ipv4 q) q (parse-format_ipv4 q v))

-- Without the development options, a dotted quad is let through exactly when the address lies in
-- none of the fifteen refused blocks.
pub is_proxy_endpoint_allowed-format :
    (q : Ipv4)
    → IsIpv4 q
    → (is_proxy_endpoint_allowed (format_ipv4 q) (record { allow_private = false; allow = [] })).ok
      ≡ not (any (in_block q) blocked_blocks)
unfolding is_proxy_endpoint_allowed
is_proxy_endpoint_allowed-format q v =
    ground (arith, inspect_address-format q v, classify_v4-blocked q v)

-- `a.b`, which resolvers read as `a.0.0.b`.
abbrev pub short_form : ℕ → ℕ → Text
short_form a b = format_octet a ++ (b'.' ∷ format_octet b)

short_form-IsPlain : (a b : ℕ) → a < 256 → b < 256 → All IsPlain (short_form a b)
short_form-IsPlain a b h k =
    All-append IsPlain (format_octet a) _ (format_octet-IsPlain a h)
      (refl, format_octet-IsPlain b k)

split-short_form :
    (a b : ℕ)
    → a < 256
    → b < 256
    → split b'.' (short_form a b) ≡ format_octet a ∷ format_octet b ∷ []
split-short_form a b h k =
    rw (split-append _ _ (format_octet b) (format_octet-NoUnit a h))
      (rw (split-of_NoUnit _ _ (format_octet-NoUnit b k)) refl)

format_octet-numeric :
    (n : ℕ)
    → n < 256
    → (is_numeric_label (format_octet n) ≡ true) × (is_suspicious (format_octet n) ≡ false)
unfolding format_octet is_numeric_label is_suspicious decimal_from
format_octet-numeric n h = ground arith

looks_like-short_form :
    (a b : ℕ) → a < 256 → b < 256 → looks_like_non_canonical_ip_literal (short_form a b) ≡ false
unfolding looks_like_non_canonical_ip_literal suspicious_labels
looks_like-short_form a b h k =
    rw (split-short_form a b h k)
      (ground (arith, format_octet-numeric a h, format_octet-numeric b k))

parse_ipv4-short_form : (a b : ℕ) → a < 256 → b < 256 → parse_ipv4 (short_form a b) ≡ none
unfolding parse_ipv4
parse_ipv4-short_form a b h k = rw (split-short_form a b h k) refl

includes-plain : (s : Text) → All IsPlain s → includes b':' s ≡ false
includes-plain [] h = refl
includes-plain (c ∷ s) (h, hs) = ground (arith, includes-plain s hs)

hostname_verdict :
    (raw : Text)
    → raw ≢ []
    → parse_ipv4 raw ≡ none
    → includes b':' raw ≡ false
    → looks_like_non_canonical_ip_literal raw ≡ false
    → (inspect_raw raw).blocked ≡ false
unfolding inspect_raw inspect_other
hostname_verdict [] n e i l = absurd (n refl)
hostname_verdict (c ∷ s) n e i l = rw (e, v4_result) (rw (i, l) refl)

short_form-ne-nil : (a b : ℕ) → short_form a b ≢ []
unfolding format_octet
short_form-ne-nil a b = ground arith

-- A two-part abbreviation `a.b` of an IPv4 address, such as `127.1`, is not blocked: it passes for
-- a host name.
pub inspect_address-short_form :
    (a b : ℕ) → a < 256 → b < 256 → (inspect_address (short_form a b)).blocked ≡ false
unfolding inspect_address
inspect_address-short_form a b h k =
    rw (normal-plain (short_form a b) (short_form-IsPlain a b h k)) (
      hostname_verdict (short_form a b) (short_form-ne-nil a b) (parse_ipv4-short_form a b h k)
        (includes-plain (short_form a b) (short_form-IsPlain a b h k))
        (looks_like-short_form a b h k))
