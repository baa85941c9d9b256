-- ===== src/Net/Socks/Requests.antt =====
-- What a server that follows RFC 1928 reads in a CONNECT request.
use proxy_pulse_crunchyroll.Prelude.{
  ◌>>=◌, ℕ, ◌+◌, ◌*◌, ◌/◌, ◌%◌, ◌≡◌, refl, sym, ap, subst, ◌≢◌, inl, inr, true, ◌&&◌, List, [], ◌∷◌,
  ◌++◌, Option, none, some, arith, ltb, leb, ◌==◌, if◌then◌else◌, leb→le, Bool-cases, or_default,
  length, take, drop, length-append, length-take, length-drop,
}
use proxy_pulse_crunchyroll.Text.{Text}
use proxy_pulse_crunchyroll.Ip.Ipv4.{Ipv4, parse_ipv4}
use proxy_pulse_crunchyroll.Ip.Ipv4.Canonical.{IsIpv4, format_ipv4, parse_ipv4_iff}
use proxy_pulse_crunchyroll.Ip.Ipv6.{parse_ipv6}
use proxy_pulse_crunchyroll.Ip.Ipv6.Bytes.{parse_ipv6_bytes}
use proxy_pulse_crunchyroll.Net.Stream.{Bytes}
use proxy_pulse_crunchyroll.Net.Socks.{
  port_bytes, ipv4_bytes, connect_request, encoded_v6, encoded_v4, encode_address,
}

-- The first `n` bytes, if there are as many, and the rest.
abbrev pub split_at : ℕ → Bytes → Option (Bytes × Bytes)
split_at n bytes = if leb n (length bytes) then some (take n bytes, drop n bytes) else none

-- The address: of 4 or 16 bytes, or a name after a byte with its length.
abbrev pub decode_address : ℕ → Bytes → Option (Bytes × Bytes)
decode_address atyp [] = none
decode_address atyp (b ∷ bytes) =
    if atyp == 1
    then split_at 4 (b ∷ bytes)
    else if atyp == 4
    then split_at 16 (b ∷ bytes)
    else if atyp == 3
    then split_at b bytes
    else none

abbrev pub decode_port : Bytes → Option ℕ
decode_port (h ∷ l ∷ []) = some (h * 256 + l)
decode_port _ = none

abbrev pub tagged : ℕ → Bytes → Option ℕ → Option (ℕ × Bytes × ℕ)
tagged atyp address none = none
tagged atyp address (some port) = some (atyp, address, port)

abbrev pub with_port : ℕ → Option (Bytes × Bytes) → Option (ℕ × Bytes × ℕ)
with_port atyp none = none
with_port atyp (some (address, rest)) = tagged atyp address (decode_port rest)

-- A whole CONNECT request: the address type, the address and the port.
unfoldable pub decode_request : Bytes → Option (ℕ × Bytes × ℕ)
decode_request (v ∷ cmd ∷ rsv ∷ atyp ∷ rest) =
    if v == 5 && cmd == 1 && rsv == 0 then with_port atyp (decode_address atyp rest) else none
decode_request _ = none

take_prefix {ℓ} : {A : Type ℓ} (xs ys : List A) → take (length xs) (xs ++ ys) ≡ xs
take_prefix [] ys = refl
take_prefix (x ∷ xs) ys = ap (λ zs. x ∷ zs) (take_prefix xs ys)

drop_prefix {ℓ} : {A : Type ℓ} (xs ys : List A) → drop (length xs) (xs ++ ys) ≡ ys
drop_prefix [] ys = refl
drop_prefix (x ∷ xs) ys = drop_prefix xs ys

split_prefix : (n : ℕ) (xs ys : Bytes) → length xs ≡ n → split_at n (xs ++ ys) ≡ some (xs, ys)
split_prefix n xs ys e =
    let long : leb n (length (xs ++ ys)) ≡ true =
      let l = length-append xs ys in ground (arith, l, e) in
    subst (λ m. leb m (length (xs ++ ys)) ≡ true → split_at m (xs ++ ys) ≡ some (xs, ys)) e
      (λ h. rw (h, take_prefix xs ys, drop_prefix xs ys) refl) long

decode_fixed :
    (atyp n port : ℕ) (bytes : Bytes)
    → length bytes ≡ n
    → decode_address atyp (bytes ++ port_bytes port) ≡ split_at n (bytes ++ port_bytes port)
    → decode_request (connect_request atyp bytes port) ≡ some (atyp, bytes, port)
unfolding decode_request
decode_fixed atyp n port bytes e d =
    rw (d, split_prefix n bytes (port_bytes port) e) (ap (λ p. some (atyp, bytes, p)) (omega arith))

decode_v6 :
    (bytes : Bytes) (port : ℕ)
    → length bytes ≡ 16
    → decode_address 4 (bytes ++ port_bytes port) ≡ split_at 16 (bytes ++ port_bytes port)
decode_v6 [] port e = absurd (omega arith)
decode_v6 (b ∷ bytes) port e = refl

-- The literal address that a host is, by its type and its bytes: the host is the dotted decimal form of
-- the four bytes, or an IPv6 literal for the sixteen.
pub data IsAddress (host : Text) : ℕ → Bytes → Type 0 where
  dotted :
      (q : Ipv4) → IsIpv4 q → format_ipv4 q ≡ host → IsAddress host 1 (q.a ∷ q.b ∷ q.c ∷ q.d ∷ [])
  coloned : (bytes : Bytes) → parse_ipv6 host ≡ some bytes → IsAddress host 4 bytes

-- What a server reads, and that it is the target.
abbrev ReadsBack : Text → ℕ → Bytes → ℕ → Type 0
ReadsBack host atyp bytes port =
    (decode_request (connect_request atyp bytes port) ≡ some (atyp, bytes, port))
    × IsAddress host atyp bytes

-- The two address types that have a length of their own.
module _ (utf8 : Text → Bytes) where
  encoded_v6-fixed :
      (host : Text) (v6 : Option Bytes) (atyp : ℕ) (bytes : Bytes) (port : ℕ)
      → parse_ipv6 host ≡ v6
      → encoded_v6 utf8 host v6 ≡ some (atyp, bytes)
      → atyp ≢ 3
      → ReadsBack host atyp bytes port
  encoded_v6-fixed host none atyp bytes port p e n =
      elim (Bool-cases (ltb 255 (length (utf8 host)))) [
        | inl long ↦ absurd (cc (rw long at e))
        | inr fits ↦ absurd (n (ap (λ o. or_default (o >>= λ q. some q.0) 3) (sym (rw fits at e))))
      ]
  encoded_v6-fixed host (some v6) atyp bytes port p e n =
      let a : atyp ≡ 4 = ap (λ o. or_default (o >>= λ q. some q.0) 4) (sym e) in
      let b : bytes ≡ v6 = ap (λ o. or_default (o >>= λ q. some q.1) v6) (sym e) in
      let sixteen = (parse_ipv6_bytes host v6 p).0 in
      rw (a, b) (decode_fixed 4 16 port v6 sixteen (decode_v6 v6 port sixteen), coloned v6 p)

  encoded_v4-fixed :
      (host : Text) (v4 : Option Ipv4) (atyp : ℕ) (bytes : Bytes) (port : ℕ)
      → parse_ipv4 host ≡ v4
      → encoded_v4 utf8 host v4 ≡ some (atyp, bytes)
      → atyp ≢ 3
      → ReadsBack host atyp bytes port
  encoded_v4-fixed host none atyp bytes port p e n =
      encoded_v6-fixed host (parse_ipv6 host) atyp bytes port refl e n
  encoded_v4-fixed host (some v4) atyp bytes port p e n =
      let a : atyp ≡ 1 = ap (λ o. or_default (o >>= λ q. some q.0) 1) (sym e) in
      let b : bytes ≡ ipv4_bytes v4 =
        ap (λ o. or_default (o >>= λ q. some q.1) (ipv4_bytes v4)) (sym e) in
      let (f, v) = (parse_ipv4_iff host v4).0 p in
      rw (a, b) (decode_fixed 1 4 port (ipv4_bytes v4) refl refl, dotted v4 v f)

  -- A server that follows RFC 1928 reads the target back from the request, when its host is sent as an
  -- address: it reads the port, and either four bytes of which the host is the dotted decimal form, or
  -- the sixteen bytes that the host stands for as an IPv6 literal.
  pub connect_request-roundtrip :
      (host : Text) (atyp : ℕ) (bytes : Bytes) (port : ℕ)
      → encode_address utf8 host ≡ some (atyp, bytes)
      → atyp ≢ 3
      → (decode_request (connect_request atyp bytes port) ≡ some (atyp, bytes, port))
        × IsAddress host atyp bytes
  unfolding encode_address
  connect_request-roundtrip host atyp bytes port e n =
      encoded_v4-fixed host (parse_ipv4 host) atyp bytes port refl e n

port_length : (rest : Bytes) (port : ℕ) → decode_port rest ≡ some port → length rest ≡ 2
port_length [] port e = absurd (cc)
port_length (h ∷ []) port e = absurd (cc)
port_length (h ∷ l ∷ []) port e = refl
port_length (h ∷ l ∷ m ∷ rest) port e = absurd (cc)

tagged_parts :
    (atyp port : ℕ) (address bytes : Bytes) (o : Option ℕ)
    → tagged atyp address o ≡ some (atyp, bytes, port)
    → (address ≡ bytes) × (o ≡ some port)
tagged_parts atyp port address bytes none e = absurd (cc)
tagged_parts atyp port address bytes (some p) e =
    (ap (λ o. or_default (o >>= λ q. some q.1) address) e, ap (λ o. o >>= λ q. some q.2) e)

split_lengths :
    (atyp n port : ℕ) (xs address : Bytes)
    → with_port atyp (split_at n xs) ≡ some (atyp, address, port)
    → (length address ≡ n) × (length xs ≡ n + 2)
split_lengths atyp n port xs address e = elim (Bool-cases (leb n (length xs))) [
  | inr short ↦ absurd (cc (rw short at e))
  | inl long ↦
      let (a, p) =
        tagged_parts atyp port (take n xs) address (decode_port (drop n xs)) (rw long at e) in
      let two = port_length (drop n xs) port p in
      let l = leb→le n (length xs) long in
      (omega (arith, ap length a, length-take n xs, l), omega (arith, length-drop n xs, two, l))
]

-- A host that is sent by its name goes out without the byte for its length, so that such a server never
-- reads the name back: it takes the first byte of the name for the length.
pub connect_request-name :
    (bytes : Bytes) (port : ℕ)
    → decode_request (connect_request 3 bytes port) ≢ some (3, bytes, port)
unfolding decode_request
connect_request-name [] port e =
    let l = split_lengths 3 (port / 256) port (port % 256 ∷ []) [] e in omega (arith, l)
connect_request-name (b ∷ bytes) port e =
    let (l, m) = split_lengths 3 b port (bytes ++ port_bytes port) (b ∷ bytes) e in
    omega (arith, l, m, length-append bytes (port_bytes port))
