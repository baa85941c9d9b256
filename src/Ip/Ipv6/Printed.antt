-- ===== src/Ip/Ipv6/Printed.antt =====
-- shared/src/ip.ts: groups in hexadecimal digits, as parseIpv6 reads them.
use mathlib.Core.List.{reverse, reverse_aux, reverse-reverse}
use proxy_pulse_crunchyroll.Prelude.{
  ℕ, ◌+◌, ◌-◌, ◌/◌, ◌%◌, ◌<◌, ◌≤◌, ◌≡◌, refl, ◌≢◌, ap, true, false, List, [], ◌∷◌, ◌++◌, map, some,
  arith, ltb, ◌==◌, if◌then◌else◌, All, All-append,
}
use proxy_pulse_crunchyroll.Text.{Text, is_space, is_hex, trim_start, trim, split, includes, before}
use proxy_pulse_crunchyroll.Text.Splitting.{NoUnit, split-of_NoUnit, split-append}
use proxy_pulse_crunchyroll.Ip.Ipv6.{
  strip_literal, hex_value, hex_from, parse_group, parse_groups, push_group, expand,
}

hex_digit : ℕ → ℕ
hex_digit n = if ltb n 10 then n + b'0' else n - 10 + b'a'

-- Four lower-case digits.
unfoldable pub format_group : ℕ → Text
unfolding hex_digit
format_group g =
    hex_digit (g / 4096)
    ∷ hex_digit (g / 256 % 16)
    ∷ hex_digit (g / 16 % 16)
    ∷ hex_digit (g % 16)
    ∷ []

-- The groups with a colon between them.
unfoldable pub format_groups : List ℕ → Text
unfolding format_group
format_groups [] = []
format_groups (g ∷ []) = format_group g
format_groups (g ∷ h ∷ gs) = format_group g ++ (b':' ∷ format_groups (h ∷ gs))

-- Each group by its high byte and its low byte.
abbrev pub big_endian : List ℕ → List ℕ
big_endian [] = []
big_endian (g ∷ gs) = g / 256 ∷ g % 256 ∷ big_endian gs

abbrev pub IsGroup : ℕ → Type 0
IsGroup g = g < 65536

-- A digit or a colon.
abbrev pub IsPlain : ℕ → Type 0
IsPlain c = (b'0' ≤ c) × (c ≤ b'f') × (c ≢ b'[')

abbrev pub IsDigit : ℕ → Type 0
IsDigit c = is_hex c ≡ true

hex_digit-IsDigit : (n : ℕ) → n < 16 → IsDigit (hex_digit n)
unfolding hex_digit
hex_digit-IsDigit n h = ground arith

pub format_group-All : (g : ℕ) → IsGroup g → All IsDigit (format_group g)
unfolding format_group
format_group-All g h = (
  hex_digit-IsDigit (g / 4096) (omega arith),
  (
    hex_digit-IsDigit (g / 256 % 16) (omega arith),
    (hex_digit-IsDigit (g / 16 % 16) (omega arith), (hex_digit-IsDigit (g % 16) (omega arith), tt)),
  ),
)

All-IsPlain : (s : Text) → All IsDigit s → All IsPlain s
All-IsPlain [] h = tt
All-IsPlain (c ∷ s) (h, hs) = (ground arith, All-IsPlain s hs)

All-NoUnit : (s : Text) → All IsDigit s → NoUnit b':' s
All-NoUnit [] h = tt
All-NoUnit (c ∷ s) (h, hs) = (ground arith, All-NoUnit s hs)

pub format_groups-All : (gs : List ℕ) → All IsGroup gs → All IsPlain (format_groups gs)
unfolding format_groups
format_groups-All [] h = tt
format_groups-All (g ∷ []) (h, hs) = All-IsPlain (format_group g) (format_group-All g h)
format_groups-All (g ∷ k ∷ gs) (h, hs) =
    All-append IsPlain (format_group g) (b':' ∷ format_groups (k ∷ gs))
      (All-IsPlain (format_group g) (format_group-All g h))
      ((omega arith, omega arith, omega arith), format_groups-All (k ∷ gs) hs)

trim_start-plain : (s : Text) → All IsPlain s → trim_start s ≡ s
unfolding trim_start is_space
trim_start-plain [] h = refl
trim_start-plain (c ∷ s) (h, hs) = ground arith

All-reverse_aux : (s r : Text) → All IsPlain s → All IsPlain r → All IsPlain (reverse_aux s r)
All-reverse_aux [] r h k = k
All-reverse_aux (c ∷ s) r (h, hs) k = All-reverse_aux s (c ∷ r) hs (h, k)

pub trim-plain : (s : Text) → All IsPlain s → trim s ≡ s
unfolding trim
trim-plain s h =
    rw (trim_start-plain s h, trim_start-plain (reverse s) (All-reverse_aux s [] h tt))
      (reverse-reverse s)

before-plain : (s : Text) → All IsPlain s → before b'%' s ≡ s
unfolding before
before-plain [] h = refl
before-plain (c ∷ s) (h, hs) = ground (arith, before-plain s hs)

pub strip_literal-plain : (s : Text) → All IsPlain s → strip_literal s ≡ s
unfolding strip_literal
strip_literal-plain [] h = unfold before in refl
strip_literal-plain (c ∷ s) (h, hs) =
    let e : (c == b'[') ≡ false = ground arith in rw e (before-plain (c ∷ s) (h, hs))

includes-plain : (s : Text) → All IsPlain s → includes b'.' s ≡ false
includes-plain [] h = refl
includes-plain (c ∷ s) (h, hs) = ground (arith, includes-plain s hs)

hex_value-digit : (n : ℕ) → n < 16 → hex_value (hex_digit n) ≡ n
unfolding hex_value hex_digit
hex_value-digit n h = ground arith

parse_group-format : (g : ℕ) → IsGroup g → parse_group (format_group g) ≡ some g
unfolding parse_group format_group hex_from
parse_group-format g h =
    let (a, (b, (c, (d, _)))) = format_group-All g h in
    rw
      (
        a,
        b,
        c,
        d,
        hex_value-digit (g / 4096) (omega arith),
        hex_value-digit (g / 256 % 16) (omega arith),
        hex_value-digit (g / 16 % 16) (omega arith),
        hex_value-digit (g % 16) (omega arith),
      )
      (ap some (omega arith))

parse_groups-format : (gs : List ℕ) → All IsGroup gs → parse_groups (map format_group gs) ≡ some gs
unfolding parse_groups push_group
parse_groups-format [] h = refl
parse_groups-format (g ∷ gs) (h, hs) = rw (parse_group-format g h, parse_groups-format gs hs) refl

split-format :
    (g : ℕ) (gs : List ℕ)
    → All IsGroup (g ∷ gs)
    → split b':' (format_groups (g ∷ gs)) ≡ map format_group (g ∷ gs)
unfolding format_groups
split-format g [] (h, hs) =
    split-of_NoUnit b':' (format_group g) (All-NoUnit (format_group g) (format_group-All g h))
split-format g (k ∷ gs) (h, hs) =
    rw
      (
        split-append b':' (format_group g) (format_groups (k ∷ gs))
            (All-NoUnit (format_group g) (format_group-All g h)),
        split-format k gs hs,
      )
      refl

expand-cons : (s : Text) → s ≢ [] → All IsPlain s → expand s ≡ parse_groups (split b':' s)
unfolding expand
expand-cons [] n h = absurd (n refl)
expand-cons (c ∷ s) n h = rw (includes-plain (c ∷ s) h) refl

pub format_groups-ne-nil : (g : ℕ) (gs : List ℕ) → format_groups (g ∷ gs) ≢ []
unfolding format_groups format_group
format_groups-ne-nil g [] e = cc
format_groups-ne-nil g (k ∷ gs) e = cc

pub expand-format : (gs : List ℕ) → All IsGroup gs → expand (format_groups gs) ≡ some gs
expand-format [] h = unfold expand format_groups in refl
expand-format (g ∷ gs) h =
    rw
      (
        expand-cons (format_groups (g ∷ gs)) (format_groups-ne-nil g gs)
            (format_groups-All (g ∷ gs) h),
        split-format g gs h,
      )
      (parse_groups-format (g ∷ gs) h)
