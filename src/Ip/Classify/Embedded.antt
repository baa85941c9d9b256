-- ===== src/Ip/Classify/Embedded.antt =====
-- IPv6 forms that carry an IPv4 address are judged by that address.
use proxy_pulse_crunchyroll.Prelude.{ℕ, ◌≡◌, refl, List, [], ◌∷◌, ◌++◌, replicate}
use proxy_pulse_crunchyroll.Ip.Ipv4.{Ipv4}
use proxy_pulse_crunchyroll.Ip.Classify.{public, classify_v4, classify_v6_bytes}

abbrev pub octets : Ipv4 → List ℕ
octets q = q.a ∷ q.b ∷ q.c ∷ q.d ∷ []

-- ::ffff:0:0/96
abbrev pub mapped : Ipv4 → List ℕ
mapped q = replicate 10 0 ++ (0xff ∷ 0xff ∷ octets q)

-- 64:ff9b::/96
abbrev pub nat64 : Ipv4 → List ℕ
nat64 q = 0x00 ∷ 0x64 ∷ 0xff ∷ 0x9b ∷ replicate 8 0 ++ octets q

-- 2002::/16, with any ten bytes behind the IPv4 address.
abbrev pub six_to_four : Ipv4 → List ℕ → List ℕ
six_to_four q rest = 0x20 ∷ 0x02 ∷ octets q ++ rest

-- An IPv4-mapped, a NAT64 and a 6to4 address are classified as the IPv4 address that they carry,
-- whatever follows it in the 6to4 address.
pub classify_v6_embedded :
    (q : Ipv4) (rest : List ℕ)
    → (classify_v6_bytes (mapped q) ≡ classify_v4 q)
      × (classify_v6_bytes (nat64 q) ≡ classify_v4 q)
      × (classify_v6_bytes (six_to_four q rest) ≡ classify_v4 q)
unfolding classify_v6_bytes
classify_v6_embedded q rest = (refl, refl, refl)

-- Every address of 2001:db8::/32, the documentation prefix, is classified as public.
pub classify_v6-documentation :
    (rest : List ℕ) → classify_v6_bytes (0x20 ∷ 0x01 ∷ 0x0d ∷ 0xb8 ∷ rest) ≡ public
unfolding classify_v6_bytes
classify_v6-documentation rest = refl
