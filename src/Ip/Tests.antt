-- ===== src/Ip/Tests.antt =====
-- Runs of the address policy, and its theorems at concrete inputs.
use proxy_pulse_crunchyroll.Prelude.{
  ℕ, ◌+◌, ◌≡◌, refl, ◌≢◌, ◌↔◌, ◌⊎◌, true, List, [], ◌∷◌, ◌++◌, none, some, arith, length, replicate,
  leb, ◌==◌, if◌then◌else◌, any,
}
use proxy_pulse_crunchyroll.Text.{Text, codes, split, to_lower, decimal_from, text_eq}
use proxy_pulse_crunchyroll.Ip.Ipv4.{Ipv4, parse_ipv4, parse_octet}
use proxy_pulse_crunchyroll.Ip.Ipv4.Canonical.{IsIpv4, format_ipv4, parse_ipv4_iff}
use proxy_pulse_crunchyroll.Ip.Ipv6.{parse_ipv6}
use proxy_pulse_crunchyroll.Ip.Ipv6.Printed.{format_groups}
use proxy_pulse_crunchyroll.Ip.Ipv6.RoundTrip.{big_endian, widened, parse_ipv6-format}
use proxy_pulse_crunchyroll.Ip.Classify.{is_blocked, classify_v4, public, cloud_metadata}
use proxy_pulse_crunchyroll.Ip.Classify.Ranges.{in_block, blocked_blocks, classify_v4-blocked}
use proxy_pulse_crunchyroll.Ip.Inspect.{
  inspect_address, EndpointPolicyOptions, is_proxy_endpoint_allowed, strip_brackets,
  is_metadata_hostname,
}
use proxy_pulse_crunchyroll.Ip.Inspect.Policy.{is_proxy_endpoint_allowed_iff}

abbrev lan : Ipv4
lan = record { a = 192; b = 168; c = 1; d = 20 }

lan-IsIpv4 : IsIpv4 lan
lan-IsIpv4 = record { a = omega arith; b = omega arith; c = omega arith; d = omega arith }

abbrev local_address : Text
local_address = codes "fe80::1%eth0"

abbrev local_form : List ℕ
local_form = 0xfe ∷ 0x80 ∷ replicate 13 0 ++ 1 ∷ []

local_bytes : parse_ipv6 local_address ≡ some local_form
unfolding parse_ipv6 split
local_bytes = refl

refused_texts :
    (parse_ipv4 (codes "1.2.3") ≡ none)
    × (parse_ipv4 (codes "1.2.3.256") ≡ none)
    × (parse_ipv4 (codes "01.2.3.4") ≡ none)
    × (parse_ipv6 (codes "1::2::3") ≡ none)
    × (parse_ipv6 (codes "::ffff:1.2.3.4") ≡ none)
unfolding parse_ipv4 parse_ipv6 parse_octet split decimal_from
refused_texts = (refl, refl, refl, refl, refl)

metadata_host : is_metadata_hostname (codes "[fd00:EC2::254]") ≡ true
unfolding is_metadata_hostname to_lower strip_brackets
metadata_host = refl

parse_ipv4_iff_example :
    (parse_ipv4 (codes "192.168.1.20") ≡ some lan)
    ↔ ((format_ipv4 lan ≡ codes "192.168.1.20") × IsIpv4 lan)
parse_ipv4_iff_example = parse_ipv4_iff (codes "192.168.1.20") lan

-- 2001:0db8::0001
parse_ipv6-format_example :
    let head : List ℕ = 0x2001 ∷ 0xdb8 ∷ [] in
    let tail : List ℕ = 1 ∷ [] in
    (parse_ipv6 (format_groups head) ≡ (if length head == 8 then some (big_endian head) else none))
    × (parse_ipv6 (format_groups head ++ (b':' ∷ b':' ∷ format_groups tail)) ≡ (
        if leb (length head + length tail) 8 then some (big_endian (widened head tail)) else none))
parse_ipv6-format_example =
    parse_ipv6-format (0x2001 ∷ 0xdb8 ∷ []) (1 ∷ []) (omega arith, (omega arith, tt))
      (omega arith, tt)

classify_v4-blocked_example : is_blocked (classify_v4 lan) ≡ any (in_block lan) blocked_blocks
classify_v4-blocked_example = classify_v4-blocked lan lan-IsIpv4

abbrev development : EndpointPolicyOptions
development = record { allow_private = true; allow = codes "10.0.0.1" ∷ [] }

is_proxy_endpoint_allowed_iff_example :
    ((is_proxy_endpoint_allowed (codes "127.0.0.1") development).ok ≡ true) ↔ (
      (any (text_eq (strip_brackets (codes "127.0.0.1"))) development.allow ≡ true)
      ⊎ ((inspect_address (codes "127.0.0.1")).classification ≡ public)
      ⊎ ((development.allow_private ≡ true)
          × ((inspect_address (codes "127.0.0.1")).classification ≢ cloud_metadata)))
is_proxy_endpoint_allowed_iff_example =
    is_proxy_endpoint_allowed_iff (codes "127.0.0.1") development
