-- ===== src/Ip/Ipv4.antt =====
-- shared/src/ip.ts: parseIpv4 and isIpv4Literal.
pub mod Canonical
use proxy_pulse_crunchyroll.Prelude.{
  ℕ, Bool, true, false, ◌&&◌, List, [], ◌∷◌, Option, none, some, ltb, leb, is_some, if◌then◌else◌,
  all, length,
}
use proxy_pulse_crunchyroll.Text.{Text, is_digit, split, starts_with, decimal_from}

pub record Ipv4 : Type 0 where
  pub a : ℕ
  pub b : ℕ
  pub c : ℕ
  pub d : ℕ

-- `/^\d{1,3}$/.test(part)`
is_short_number : Text → Bool
is_short_number part = leb 1 (length part) && leb (length part) 3 && all is_digit part

-- One round of the loop over the four parts.
unfoldable pub parse_octet : Text → Option ℕ
unfolding is_short_number
parse_octet part =
    if is_short_number part
    then (if ltb 255 (decimal_from 0 part)
        then none
        else if ltb 1 (length part) && starts_with b'0' part
        then none
        else some (decimal_from 0 part))
    else none

-- The loop returns `null` at the first part that is no octet.
unfoldable pub quad : Option ℕ → Option ℕ → Option ℕ → Option ℕ → Option Ipv4
quad (some a) (some b) (some c) (some d) = some (record { a = a; b = b; c = c; d = d })
quad (some a) (some b) (some c) none = none
quad (some a) (some b) none d = none
quad (some a) none c d = none
quad none b c d = none

unfoldable pub quad_of_parts : List Text → Option Ipv4
unfolding quad
quad_of_parts (p ∷ q ∷ r ∷ s ∷ []) =
    quad (parse_octet p) (parse_octet q) (parse_octet r) (parse_octet s)
quad_of_parts _ = none

unfoldable pub parse_ipv4 : Text → Option Ipv4
unfolding quad_of_parts
parse_ipv4 input = quad_of_parts (split b'.' input)

unfoldable pub is_ipv4_literal : Text → Bool
is_ipv4_literal host = is_some (parse_ipv4 host)
