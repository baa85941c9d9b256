-- ===== src/Ip/Classify.antt =====
-- shared/src/ip.ts: the classification of IPv4 and IPv6 addresses.
pub mod Ranges
pub mod Embedded
use proxy_pulse_crunchyroll.Prelude.{
  ℕ, ◌+◌, ◌-◌, ◌*◌, ◌^◌, Bool, true, false, not, ◌&&◌, ◌||◌, List, ltb, leb, ◌==◌, if◌then◌else◌,
  get_or, take, drop, all,
}
use Prim.Native.Nat.{bit_and}
use proxy_pulse_crunchyroll.Ip.Ipv4.{Ipv4}

pub data AddressClassification : Type 0 where
  public loopback private link_local cloud_metadata carrier_nat multicast reserved documentation
        benchmark unique_local unspecified invalid :
      AddressClassification

-- `BLOCKED_CLASSIFICATIONS.has`: all but `public`.
unfoldable pub is_blocked : AddressClassification → Bool
is_blocked public = false
is_blocked loopback = true
is_blocked private = true
is_blocked link_local = true
is_blocked cloud_metadata = true
is_blocked carrier_nat = true
is_blocked multicast = true
is_blocked reserved = true
is_blocked documentation = true
is_blocked benchmark = true
is_blocked unique_local = true
is_blocked unspecified = true
is_blocked invalid = true

unfoldable pub classify_v4 : Ipv4 → AddressClassification
classify_v4 q =
    if q.a == 0
    then unspecified
    else if q.a == 10
    then private
    else if q.a == 127
    then loopback
    else if q.a == 100 && leb 64 q.b && leb q.b 127
    then carrier_nat
    else if q.a == 169 && q.b == 254
    then (if q.c == 169 && q.d == 254 then cloud_metadata else link_local)
    else if q.a == 172 && leb 16 q.b && leb q.b 31
    then private
    else if q.a == 192 && q.b == 168
    then private
    else if q.a == 192 && q.b == 0 && q.c == 0
    then reserved
    else if q.a == 192 && q.b == 0 && q.c == 2
    then documentation
    else if q.a == 192 && q.b == 88 && q.c == 99
    then reserved
    else if q.a == 198 && (q.b == 18 || q.b == 19)
    then benchmark
    else if q.a == 198 && q.b == 51 && q.c == 100
    then documentation
    else if q.a == 203 && q.b == 0 && q.c == 113
    then documentation
    else if q.a == 198 && q.b == 19
    then benchmark
    else if leb 224 q.a && ltb q.a 240
    then multicast
    else if leb 240 q.a
    then reserved
    else public

-- `b[i]`
abbrev pub byte_at : List ℕ → ℕ → ℕ
byte_at b i = get_or b i 0

-- `isZero(from, to)`
unfoldable pub is_zero : List ℕ → ℕ → ℕ → Bool
is_zero b from to = all (λ x. x == 0) (take (to - from) (drop from b))

-- `(b[0] << 8) | b[1]`; the entries are bytes, so the bits do not overlap.
abbrev pub high_of : List ℕ → ℕ
high_of b = byte_at b 0 * 2 ^ 8 + byte_at b 1

-- The IPv4 address that stands at four bytes.
abbrev pub embedded_at : List ℕ → ℕ → Ipv4
embedded_at b i = record {
  a = byte_at b i;
  b = byte_at b (i + 1);
  c = byte_at b (i + 2);
  d = byte_at b (i + 3);
}

-- The tests behind those for embedded IPv4 addresses.
classify_v6_rest : List ℕ → AddressClassification
classify_v6_rest b =
    if not (is_zero b 0 12) && high_of b == 0x0064 && byte_at b 2 == 0xff && byte_at b 3 == 0x9b
    then reserved
    else if high_of b == 0x0100 && is_zero b 1 16
    then reserved
    else if high_of b == 0x2001 && byte_at b 2 == 0x0c && byte_at b 3 == 0x00
    then documentation
    else if bit_and (byte_at b 0) 0xfe == 0xfc
    then unique_local
    else if high_of b == 0xfe80 || bit_and (high_of b) 0xffc0 == 0xfe80
    then link_local
    else if byte_at b 0 == 0xfd
    then unique_local
    else if high_of b == 0xfeb9
    then reserved
    else if bit_and (byte_at b 0) 0xff == 0xff
    then multicast
    else if high_of b == 0x2001 && byte_at b 2 == 0x00 && byte_at b 3 == 0x00
    then public
    else if high_of b == 0x3ffe
    then reserved
    else if high_of b == 0x2001 && byte_at b 2 == 0x00 && byte_at b 3 == 0x00
    then public
    else if is_zero b 0 6 && byte_at b 6 == 0x00 && byte_at b 7 == 0x00
    then reserved
    else if high_of b == 0x2001
    then public
    else if high_of b == 0x2002
    then public
    else public

unfoldable pub classify_v6_bytes : List ℕ → AddressClassification
unfolding is_zero classify_v6_rest
classify_v6_bytes b =
    if is_zero b 0 16
    then unspecified
    else if is_zero b 0 15 && byte_at b 15 == 1
    then loopback
    else if is_zero b 0 10 && byte_at b 10 == 0xff && byte_at b 11 == 0xff
    then classify_v4 (embedded_at b 12)
    else if high_of b == 0x0064 && byte_at b 2 == 0xff && byte_at b 3 == 0x9b && is_zero b 4 12
    then classify_v4 (embedded_at b 12)
    else if high_of b == 0x2002
    then classify_v4 (embedded_at b 2)
    else classify_v6_rest b

unfoldable pub is_v6_metadata : List ℕ → Bool
is_v6_metadata b =
    byte_at b 0 == 0xfd && byte_at b 1 == 0x00 && byte_at b 2 == 0x0e && byte_at b 3 == 0xc2
