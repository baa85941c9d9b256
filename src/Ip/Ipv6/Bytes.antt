-- ===== src/Ip/Ipv6/Bytes.antt =====
-- The length and the range of a parsed IPv6 address.
use proxy_pulse_crunchyroll.Prelude.{
  ℕ, ◌*◌, ◌<◌, ◌≡◌, refl, inl, inr, List, [], ◌∷◌, Option, none, some, arith, Bool-cases, ◌>>=◌,
  some-eq, length, All,
}
use proxy_pulse_crunchyroll.Text.{Text, trim}
use proxy_pulse_crunchyroll.Ip.Ipv6.{
  parse_ipv6, groups_of, group_bytes, fill_groups, second_double, split_double, strip_literal,
}

length-group_bytes : (gs : List ℕ) → length (group_bytes gs) ≡ 2 * length gs
length-group_bytes [] = refl
length-group_bytes (g ∷ gs) = omega (arith, length-group_bytes gs)

group_bytes-All : (gs : List ℕ) → All (λ b. b < 256) (group_bytes gs)
group_bytes-All [] = tt
group_bytes-All (g ∷ gs) = (omega arith, (omega arith, group_bytes-All gs))

length-fill_groups : (head tail gs : List ℕ) → fill_groups head tail ≡ some gs → length gs ≡ 8
length-fill_groups head tail gs e = ground arith

length-groups_of :
    (text : Text) (at : Option (Text × Text)) (gs : List ℕ)
    → groups_of text at ≡ some gs
    → length gs ≡ 8
unfolding groups_of
length-groups_of text none gs e = ground arith
length-groups_of text (some (head, tail)) gs e = elim (Bool-cases (second_double tail)) [
  | inl twice ↦ ground arith
  | inr once ↦ ground (arith)
]

bytes_of :
    (o : Option (List ℕ)) (bs : List ℕ)
    → ((gs : List ℕ) → o ≡ some gs → length gs ≡ 8)
    → (o >>= λ gs. some (group_bytes gs)) ≡ some bs
    → (length bs ≡ 16) × All (λ b. b < 256) bs
bytes_of none bs eight e = cc
bytes_of (some gs) bs eight e =
    let e' : group_bytes gs ≡ bs = some-eq e in
    rw (← e') (omega (arith, eight gs refl, length-group_bytes gs), group_bytes-All gs)

parse_ipv6_bytes_of :
    (t s : Text) (bs : List ℕ)
    → trim s ≡ t
    → parse_ipv6 s ≡ some bs
    → (length bs ≡ 16) × All (λ b. b < 256) bs
unfolding parse_ipv6
parse_ipv6_bytes_of [] s bs h e = let e' : none ≡ some bs = rw (h, parse_ipv6) at e in cc
parse_ipv6_bytes_of (c ∷ t) s bs h e =
    bytes_of _ bs (length-groups_of (strip_literal (c ∷ t)) (split_double (strip_literal (c ∷ t))))
      (rw (h, parse_ipv6) at e)

-- Whatever text is read, a parsed IPv6 address has sixteen entries, all of them bytes.
pub parse_ipv6_bytes :
    (s : Text) (bs : List ℕ) → parse_ipv6 s ≡ some bs → (length bs ≡ 16) × All (λ b. b < 256) bs
parse_ipv6_bytes s bs e = parse_ipv6_bytes_of (trim s) s bs refl e
