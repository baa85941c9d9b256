-- ===== src/Ip/Classify/Ranges.antt =====
-- The IPv4 blocks that are refused, as a list of prefixes, against the chain of octet tests.
use proxy_pulse_crunchyroll.Prelude.{
  ℕ, ◌+◌, ◌*◌, ◌/◌, ◌^◌, ◌<◌, ◌≡◌, refl, sym, ◌∙◌, Bool, false, ◌&&◌, ◌||◌, List, [], ◌∷◌, arith,
  ltb, leb, ◌==◌, if◌then◌else◌, any,
}
use proxy_pulse_crunchyroll.Ip.Ipv4.{Ipv4}
use proxy_pulse_crunchyroll.Ip.Ipv4.Canonical.{IsIpv4}
use proxy_pulse_crunchyroll.Ip.Classify.{
  public, unspecified, private, loopback, carrier_nat, cloud_metadata, link_local, reserved,
  documentation, benchmark, multicast, is_blocked, classify_v4,
}

-- The address as a 32-bit number.
abbrev pub address_value : Ipv4 → ℕ
address_value q = q.a * 2 ^ 24 + q.b * 2 ^ 16 + q.c * 2 ^ 8 + q.d

-- A block: the value of its first address and the number of its free low bits.
pub record Block : Type 0 where
  pub base : ℕ
  pub free_bits : ℕ

unfoldable pub in_block : Ipv4 → Block → Bool
in_block q b = address_value q / 2 ^ b.free_bits == b.base / 2 ^ b.free_bits

abbrev block : ℕ → ℕ → ℕ → ℕ → Block
block a b c free = record { base = a * 2 ^ 24 + b * 2 ^ 16 + c * 2 ^ 8; free_bits = free }

-- 0/8, 10/8, 127/8, 100.64/10, 169.254/16, 172.16/12, 192.168/16, 192.0.0/24, 192.0.2/24,
-- 192.88.99/24, 198.18/15, 198.51.100/24, 203.0.113/24, 224/4 and 240/4.
abbrev pub blocked_blocks : List Block
blocked_blocks =
    block 0 0 0 24
    ∷ block 10 0 0 24
    ∷ block 127 0 0 24
    ∷ block 100 64 0 22
    ∷ block 169 254 0 16
    ∷ block 172 16 0 20
    ∷ block 192 168 0 16
    ∷ block 192 0 0 8
    ∷ block 192 0 2 8
    ∷ block 192 88 99 8
    ∷ block 198 18 0 17
    ∷ block 198 51 100 8
    ∷ block 203 0 113 8
    ∷ block 224 0 0 28
    ∷ block 240 0 0 28
    ∷ []

module _ (q : Ipv4) (v : IsIpv4 q) where
  block_8 : (a : ℕ) → a < 256 → in_block q (block a 0 0 24) ≡ (q.a == a)
  unfolding in_block
  block_8 a h = ground arith

  block_16 : (a b : ℕ) → a < 256 → b < 256 → in_block q (block a b 0 16) ≡ (q.a == a && q.b == b)
  unfolding in_block
  block_16 a b h k = ground arith

  block_24 :
      (a b c : ℕ)
      → a < 256
      → b < 256
      → c < 256
      → in_block q (block a b c 8) ≡ (q.a == a && q.b == b && q.c == c)
  unfolding in_block
  block_24 a b c h k l = ground arith

  block_carrier : in_block q (block 100 64 0 22) ≡ (q.a == 100 && leb 64 q.b && leb q.b 127)
  unfolding in_block
  block_carrier = ground arith

  block_172 : in_block q (block 172 16 0 20) ≡ (q.a == 172 && leb 16 q.b && leb q.b 31)
  unfolding in_block
  block_172 = ground arith

  block_benchmark : in_block q (block 198 18 0 17) ≡ (q.a == 198 && (q.b == 18 || q.b == 19))
  unfolding in_block
  block_benchmark = ground arith

  block_multicast : in_block q (block 224 0 0 28) ≡ (leb 224 q.a && ltb q.a 240)
  unfolding in_block
  block_multicast = ground arith

  block_reserved : in_block q (block 240 0 0 28) ≡ leb 240 q.a
  unfolding in_block
  block_reserved = ground arith

-- The octet tests of the source, joined; the second test for 198.19 never matters.
octet_tests : Ipv4 → Bool
octet_tests q =
    (q.a == 0)
    || ((q.a == 10)
        || ((q.a == 127)
            || ((q.a == 100 && leb 64 q.b && leb q.b 127)
                || ((q.a == 169 && q.b == 254)
                    || ((q.a == 172 && leb 16 q.b && leb q.b 31)
                        || ((q.a == 192 && q.b == 168)
                            || ((q.a == 192 && q.b == 0 && q.c == 0)
                                || ((q.a == 192 && q.b == 0 && q.c == 2)
                                    || ((q.a == 192 && q.b == 88 && q.c == 99)
                                        || ((q.a == 198 && (q.b == 18 || q.b == 19))
                                            || ((q.a == 198 && q.b == 51 && q.c == 100)
                                                || ((q.a == 203 && q.b == 0 && q.c == 113)
                                                    || ((leb 224 q.a && ltb q.a 240)
                                                        || ((leb 240 q.a) || false))))))))))))))

-- The chain of tests over any outcomes of the tests: `public` is what is left.
tests_joined :
    (s1 s2 s3 s4 s5 s6 s7 s8 s9 s10 w a b c p r m e : Bool)
    → is_blocked (
        if s1
        then unspecified
        else if s2
        then private
        else if s3
        then loopback
        else if s4
        then carrier_nat
        else if s5
        then (if w then cloud_metadata else link_local)
        else if s6
        then private
        else if s7
        then private
        else if s8
        then reserved
        else if s9
        then documentation
        else if s10
        then reserved
        else if a && (b || c)
        then benchmark
        else if p
        then documentation
        else if r
        then documentation
        else if a && c
        then benchmark
        else if m
        then multicast
        else if e
        then reserved
        else public)
      ≡ (s1
          || (s2
              || (s3
                  || (s4
                      || (s5
                          || (s6
                              || (s7
                                  || (s8
                                      || (s9
                                          || (s10
                                              || ((a && (b || c))
                                                  || (p || (r || (m || (e || (false))))))))))))))))
unfolding is_blocked
tests_joined s1 s2 s3 s4 s5 s6 s7 s8 s9 s10 w a b c p r m e = ground arith

classify_v4-octet_tests : (q : Ipv4) → is_blocked (classify_v4 q) ≡ octet_tests q
unfolding classify_v4 octet_tests
classify_v4-octet_tests q =
    tests_joined (q.a == 0) (q.a == 10) (q.a == 127) (q.a == 100 && leb 64 q.b && leb q.b 127)
      (q.a == 169 && q.b == 254) (q.a == 172 && leb 16 q.b && leb q.b 31) (q.a == 192 && q.b == 168)
      (q.a == 192 && q.b == 0 && q.c == 0) (q.a == 192 && q.b == 0 && q.c == 2)
      (q.a == 192 && q.b == 88 && q.c == 99) (q.c == 169 && q.d == 254) (q.a == 198) (q.b == 18)
      (q.b == 19) (q.a == 198 && q.b == 51 && q.c == 100) (q.a == 203 && q.b == 0 && q.c == 113)
      (leb 224 q.a && ltb q.a 240) (leb 240 q.a)

octet_tests-blocks : (q : Ipv4) → IsIpv4 q → any (in_block q) blocked_blocks ≡ octet_tests q
unfolding octet_tests
octet_tests-blocks q v =
    rw
      (
        block_8 q v 0 (omega arith),
        block_8 q v 10 (omega arith),
        block_8 q v 127 (omega arith),
        block_carrier q v,
        block_16 q v 169 254 (omega arith) (omega arith),
        block_172 q v,
        block_16 q v 192 168 (omega arith) (omega arith),
        block_24 q v 192 0 0 (omega arith) (omega arith) (omega arith),
        block_24 q v 192 0 2 (omega arith) (omega arith) (omega arith),
        block_24 q v 192 88 99 (omega arith) (omega arith) (omega arith),
        block_benchmark q v,
        block_24 q v 198 51 100 (omega arith) (omega arith) (omega arith),
        block_24 q v 203 0 113 (omega arith) (omega arith) (omega arith),
        block_multicast q v,
        block_reserved q v,
      )
      refl

-- An address is refused exactly when it lies in one of the fifteen blocks.
pub classify_v4-blocked :
    (q : Ipv4) → IsIpv4 q → is_blocked (classify_v4 q) ≡ any (in_block q) blocked_blocks
classify_v4-blocked q v = classify_v4-octet_tests q ∙ sym (octet_tests-blocks q v)
