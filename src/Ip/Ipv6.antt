-- ===== src/Ip/Ipv6.antt =====
-- shared/src/ip.ts: parseIpv6 and isIpv6Literal.
pub mod Bytes
pub mod Printed
pub mod Doubles
pub mod RoundTrip
use proxy_pulse_crunchyroll.Prelude.{
  ℕ, ◌+◌, ◌-◌, ◌*◌, ◌/◌, ◌%◌, ◌^◌, Bool, ◌&&◌, List, [], ◌∷◌, ◌++◌, Option, none, some, ltb, leb,
  ◌==◌, if◌then◌else◌, ◌>>=◌, is_some, length, replicate, all,
}
use proxy_pulse_crunchyroll.Text.{
  Text, is_digit, is_hex, trim, starts_with, ends_with, drop_first, drop_last, before, includes,
  split,
}
use proxy_pulse_crunchyroll.Ip.Ipv4.{Ipv4, parse_ipv4}

-- The value of a hexadecimal digit.
hex_value : ℕ → ℕ
hex_value c = if is_digit c then c - b'0' else if leb b'a' c then c - b'a' + 10 else c - b'A' + 10

hex_from : ℕ → Text → ℕ
unfolding hex_value
hex_from acc [] = acc
hex_from acc (c ∷ s) = hex_from (acc * 16 + hex_value c) s

-- `parseGroup`: one to four hexadecimal digits.
parse_group : Text → Option ℕ
unfolding hex_from
parse_group value =
    if leb 1 (length value) && leb (length value) 4 && all is_hex value
    then some (hex_from 0 value)
    else none

push_group : Option ℕ → Option (List ℕ) → Option (List ℕ)
push_group (some g) (some gs) = some (g ∷ gs)
push_group (some g) none = none
push_group none gs = none

-- The loop of `expand` over the groups of a segment.
parse_groups : List Text → Option (List ℕ)
unfolding push_group parse_group
parse_groups [] = some []
parse_groups (g ∷ gs) = push_group (parse_group g) (parse_groups gs)

-- `(v4[0] << 8) | v4[1], (v4[2] << 8) | v4[3]`; the octets fit bytes, so the bits do not overlap.
abbrev embedded_groups : Ipv4 → List ℕ
embedded_groups v = (v.a * 2 ^ 8 + v.b) ∷ (v.c * 2 ^ 8 + v.d) ∷ []

-- `expand`; the groups that it pushes, or `none` where it returns false.
unfoldable pub expand : Text → Option (List ℕ)
unfolding parse_groups
expand [] = some []
expand (c ∷ s) =
    if includes b'.' (c ∷ s)
    then (parse_ipv4 (c ∷ s) >>= λ v. some (embedded_groups v))
    else parse_groups (split b':' (c ∷ s))

abbrev pub push_head : ℕ → Option (Text × Text) → Option (Text × Text)
push_head c none = none
push_head c (some (h, t)) = some (c ∷ h, t)

-- The text before the first `::` and the text after it.
unfoldable pub split_double : Text → Option (Text × Text)
split_double [] = none
split_double (c ∷ []) = none
split_double (c ∷ d ∷ s) =
    if c == b':' && d == b':' then some ([], s) else push_head c (split_double (d ∷ s))

-- Where `::` stands at `head`, a second one is looked for from the next code unit on.
abbrev pub second_double : Text → Bool
second_double tail = is_some (split_double (b':' ∷ tail))

abbrev fill_groups : List ℕ → List ℕ → Option (List ℕ)
fill_groups head tail =
    if ltb 8 (length head + length tail)
    then none
    else (let groups = head ++ (replicate (8 - length head - length tail) 0 ++ tail) in
        if length groups == 8 then some groups else none)

-- `(g >> 8) & 0xff` and `g & 0xff` for each group.
abbrev group_bytes : List ℕ → List ℕ
group_bytes [] = []
group_bytes (g ∷ gs) = (g / 2 ^ 8 % 2 ^ 8) ∷ (g % 2 ^ 8) ∷ group_bytes gs

-- The eight groups of a text from which brackets and zone have been taken.
unfoldable pub groups_of : Text → Option (Text × Text) → Option (List ℕ)
unfolding expand split_double
groups_of text none = do groups ← expand text; if length groups == 8 then some groups else none
groups_of text (some (head, tail)) = if second_double tail then none else (do
  head_groups ← expand head
  tail_groups ← expand tail
  fill_groups head_groups tail_groups)

pub strip_literal : Text → Text
strip_literal text =
    before b'%'
      (if starts_with b'[' text && ends_with b']' text then drop_last (drop_first text) else text)

-- Sixteen bytes, or `none` for `null`.
unfoldable pub parse_ipv6 : Text → Option (List ℕ)
unfolding groups_of strip_literal trim before
parse_ipv6 input = elim (trim input) [
  | [] ↦ none
  | c ∷ s ↦ do
    groups ← groups_of (strip_literal (c ∷ s)) (split_double (strip_literal (c ∷ s)))
    some (group_bytes groups)
]

unfoldable pub is_ipv6_literal : Text → Bool
is_ipv6_literal host = includes b':' host && is_some (parse_ipv6 host)
