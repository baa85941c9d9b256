-- ===== src/Ip/Ipv6/RoundTrip.antt =====
-- shared/src/ip.ts: parseIpv6 on the written forms of an address, in full and shortened by `::`.
use proxy_pulse_crunchyroll.Prelude.{
  ℕ, ◌+◌, ◌-◌, ◌/◌, ◌%◌, ◌≡◌, refl, ◌≢◌, ap, ◌∙◌, Bool, true, false, List, [], ◌∷◌, ◌++◌,
  append-nil, none, some, arith, leb, ◌==◌, if◌then◌else◌, ◌>>=◌, length, length-append,
  length-replicate, replicate, All, All-append, All-replicate,
}
use proxy_pulse_crunchyroll.Text.{Text, trim}
use proxy_pulse_crunchyroll.Ip.Ipv6.{parse_ipv6, groups_of, group_bytes, fill_groups, split_double}
use proxy_pulse_crunchyroll.Ip.Ipv6.Printed.{
  format_groups, IsGroup, IsPlain, format_groups-All, format_groups-ne-nil, trim-plain,
  strip_literal-plain, expand-format,
}
use proxy_pulse_crunchyroll.Ip.Ipv6.Doubles.{
  push_text, split_double-format, split_double-format_only, second_double-format,
}

-- Each group by its high byte and its low byte.
abbrev pub big_endian : List ℕ → List ℕ
big_endian [] = []
big_endian (g ∷ gs) = g / 256 ∷ g % 256 ∷ big_endian gs

group_bytes-big_endian : (gs : List ℕ) → All IsGroup gs → group_bytes gs ≡ big_endian gs
group_bytes-big_endian [] h = refl
group_bytes-big_endian (g ∷ gs) (h, hs) = ground (arith, group_bytes-big_endian gs hs)

-- A text without brackets, zone and white space.
parse_ipv6-plain :
    (s : Text)
    → s ≢ []
    → All IsPlain s
    → parse_ipv6 s ≡ (groups_of s (split_double s) >>= λ gs. some (group_bytes gs))
unfolding parse_ipv6 groups_of
parse_ipv6-plain [] n h = absurd (n refl)
parse_ipv6-plain (c ∷ t) n h =
    rw (parse_ipv6, trim-plain (c ∷ t) h, strip_literal-plain (c ∷ t) h) refl

bytes_if :
    (t : Bool) (gs : List ℕ)
    → All IsGroup gs
    → ((if t then some gs else none) >>= λ gs. some (group_bytes gs))
      ≡ (if t then some (big_endian gs) else none)
bytes_if true gs h = ap some (group_bytes-big_endian gs h)
bytes_if false gs h = refl

groups_of-full :
    (gs : List ℕ)
    → All IsGroup gs
    → groups_of (format_groups gs) none ≡ (if length gs == 8 then some gs else none)
unfolding groups_of
groups_of-full gs h = rw (expand-format gs h) refl

-- The groups with zeros in between.
abbrev pub widened : List ℕ → List ℕ → List ℕ
widened head tail = head ++ (replicate (8 - length head - length tail) 0 ++ tail)

fill_groups-widened :
    (head tail : List ℕ)
    → fill_groups head tail
      ≡ (if leb (length head + length tail) 8 then some (widened head tail) else none)
fill_groups-widened head tail =
    let m = 8 - length head - length tail in
    ground (
      arith,
      length-append head (replicate m 0 ++ tail),
      length-append (replicate m 0) tail,
      length-replicate {A = ℕ} m 0,
    )

groups_of-widened :
    (head tail : List ℕ)
    → All IsGroup head
    → All IsGroup tail
    → (s : Text)
    → groups_of s (some (format_groups head, format_groups tail))
      ≡ (if leb (length head + length tail) 8 then some (widened head tail) else none)
unfolding groups_of
groups_of-widened head tail h k s =
    rw (second_double-format tail k, expand-format head h, expand-format tail k)
      (fill_groups-widened head tail)

parse_ipv6-full :
    (gs : List ℕ)
    → All IsGroup gs
    → parse_ipv6 (format_groups gs) ≡ (if length gs == 8 then some (big_endian gs) else none)
parse_ipv6-full [] h = unfold parse_ipv6 format_groups trim in refl
parse_ipv6-full (g ∷ gs) h =
    parse_ipv6-plain (format_groups (g ∷ gs)) (format_groups-ne-nil g gs)
      (format_groups-All (g ∷ gs) h)
    ∙ rw (split_double-format_only (g ∷ gs) h, groups_of-full (g ∷ gs) h)
        (bytes_if (length (g ∷ gs) == 8) (g ∷ gs) h)

shortened-ne-nil : (s t : Text) → s ++ (b':' ∷ t) ≢ []
shortened-ne-nil [] t e = cc
shortened-ne-nil (c ∷ s) t e = cc

split_double-shortened :
    (head : List ℕ) (t : Text)
    → All IsGroup head
    → split_double (format_groups head ++ (b':' ∷ b':' ∷ t)) ≡ some (format_groups head, t)
unfolding push_text split_double
split_double-shortened head t h =
    split_double-format head (b':' ∷ t) h ∙ ap (λ p. some (p, t)) (append-nil (format_groups head))

parse_ipv6-shortened :
    (head tail : List ℕ)
    → All IsGroup head
    → All IsGroup tail
    → parse_ipv6 (format_groups head ++ (b':' ∷ b':' ∷ format_groups tail))
      ≡ (if leb (length head + length tail) 8 then some (big_endian (widened head tail)) else none)
parse_ipv6-shortened head tail h k =
    let colon : IsPlain b':' = (omega arith, omega arith, omega arith) in
    parse_ipv6-plain (format_groups head ++ (b':' ∷ b':' ∷ format_groups tail))
      (shortened-ne-nil (format_groups head) (b':' ∷ format_groups tail))
      (All-append IsPlain (format_groups head) (b':' ∷ b':' ∷ format_groups tail)
        (format_groups-All head h) (colon, (colon, format_groups-All tail k)))
    ∙ rw
        (
          split_double-shortened head (format_groups tail) h,
          groups_of-widened head tail h k
              (format_groups head ++ (b':' ∷ b':' ∷ format_groups tail)),
        )
        (bytes_if (leb (length head + length tail) 8) (widened head tail) (
          All-append IsGroup head (replicate (8 - length head - length tail) 0 ++ tail) h (
            All-append IsGroup (replicate (8 - length head - length tail) 0) tail
              (All-replicate IsGroup (8 - length head - length tail) 0 (omega arith)) k)))

-- Groups of 16 bits, each written with four hexadecimal digits and a colon between them, are read as
-- an address exactly when there are eight, and then as the bytes of the groups, high byte first. With
-- `::` between two runs of groups, they are read exactly when there are at most eight together, as the
-- bytes of the groups with zero groups in place of the `::` that make them eight.
pub parse_ipv6-format :
    (head tail : List ℕ)
    → All IsGroup head
    → All IsGroup tail
    → (parse_ipv6 (format_groups head)
        ≡ (if length head == 8 then some (big_endian head) else none))
      × (parse_ipv6 (format_groups head ++ (b':' ∷ b':' ∷ format_groups tail)) ≡ (
          if leb (length head + length tail) 8
          then some (big_endian (widened head tail))
          else none))
parse_ipv6-format head tail h k = (parse_ipv6-full head h, parse_ipv6-shortened head tail h k)
