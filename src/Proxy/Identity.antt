-- ===== src/Proxy/Identity.antt =====
-- shared/src/proxy.ts: dedupeKeyHash, formatProxyRedacted and endpointFromRecord.
use proxy_pulse_crunchyroll.Prelude.{
  ℕ, zero, suc, ◌+◌, ◌-◌, ◌*◌, ◌/◌, ◌%◌, ◌^◌, ◌<◌, ◌≤◌, ◌≡◌, refl, [], ◌∷◌, ◌++◌, Option, none,
  some, arith, ltb, if◌then◌else◌, if-cases, is_some, length, replicate, length-append,
  length-replicate,
}
use Prim.Native.Nat.{bit_xor}
use proxy_pulse_crunchyroll.Text.{Text, codes, includes}
use proxy_pulse_crunchyroll.Types.{ProxyProtocol}
use proxy_pulse_crunchyroll.Proxy.Entry.{NormalizedProxy}
use proxy_pulse_crunchyroll.Proxy.Lists.{name_of, decimal, dedupe_key}

-- The loop of FNV-1a on 64 bits.
unfoldable pub fnv_from : ℕ → Text → ℕ
fnv_from h [] = h
fnv_from h (c ∷ s) = fnv_from (bit_xor h c * 0x100000001b3 % 2 ^ 64) s

abbrev hex_digit : ℕ → ℕ
hex_digit d = if ltb d 10 then 48 + d else 87 + d

-- `n.toString(16)`, on fuel for its digits, of which a number below 2 ^ 64 has at most sixteen.
unfoldable pub hex_from : ℕ → ℕ → Text
hex_from zero n = []
hex_from (suc fuel) n =
    let high = hex_from fuel (n / 16) in
    if ltb n 16 then hex_digit n ∷ [] else high ++ (hex_digit (n % 16) ∷ [])

-- `s.padStart(n, '0')`
abbrev pub pad_start : ℕ → Text → Text
pad_start n s = replicate (n - length s) b'0' ++ s

unfoldable pub dedupe_key_hash : NormalizedProxy → Text
unfolding fnv_from hex_from dedupe_key
dedupe_key_hash p = pad_start 16 (hex_from 16 (fnv_from 0xcbf29ce484222325 (dedupe_key p)))

-- A credential that is there and has something in it.
abbrev pub filled : Option Text → Option Text
filled none = none
filled (some []) = none
filled (some (c ∷ s)) = some (c ∷ s)

unfoldable pub format_proxy_redacted : NormalizedProxy → Text
format_proxy_redacted p =
    name_of p.protocol
    ++ (codes "://"
        ++ ((if is_some (filled p.username) then codes "***:***@" else [])
            ++ ((if includes b':' p.host then b'[' ∷ (p.host ++ (b']' ∷ [])) else p.host)
                ++ (b':' ∷ decimal p.port))))

pub record ProxyRecordLike : Type 0 where
  pub host : Text
  pub port : ℕ
  pub protocol : ProxyProtocol
  pub username : Option Text
  pub password : Option Text

pub record ProxyEndpoint : Type 0 where
  pub host : Text
  pub port : ℕ
  pub protocol : ProxyProtocol
  pub username : Option Text
  pub password : Option Text

unfoldable pub endpoint_from_record : ProxyRecordLike → ProxyEndpoint
endpoint_from_record r = record {
  host = r.host;
  port = r.port;
  protocol = r.protocol;
  username = filled r.username;
  password = filled r.password;
}

length-hex_from : (fuel n : ℕ) → length (hex_from fuel n) ≤ fuel
unfolding hex_from
length-hex_from zero n = omega arith
length-hex_from (suc fuel) n =
    if-cases (λ (s : Text). length s ≤ suc fuel) (ltb n 16) _ _ (λ one. omega arith)
      (λ several.
        let h = length-hex_from fuel (n / 16) in
        let l = length-append (hex_from fuel (n / 16)) (hex_digit (n % 16) ∷ []) in
        omega (arith, h, l))

-- The key of the unique index always has sixteen characters.
pub length-dedupe_key_hash : (p : NormalizedProxy) → length (dedupe_key_hash p) ≡ 16
unfolding dedupe_key_hash
length-dedupe_key_hash p =
    let s = hex_from 16 (fnv_from 0xcbf29ce484222325 (dedupe_key p)) in
    let h = length-hex_from 16 (fnv_from 0xcbf29ce484222325 (dedupe_key p)) in
    let l = length-append (replicate (16 - length s) b'0') s in
    let r = length-replicate {A = ℕ} (16 - length s) b'0' in omega (arith, h, l, r)

-- What is logged of a proxy is the same for every name and password that it could have.
pub format_proxy_redacted-hides :
    (p : NormalizedProxy) (name other : Text) (password changed : Option Text)
    → 0 < length name
    → 0 < length other
    → format_proxy_redacted (record p { username = some name; password = password })
      ≡ format_proxy_redacted (record p { username = some other; password = changed })
unfolding format_proxy_redacted
format_proxy_redacted-hides p [] other password changed h k = absurd (omega arith)
format_proxy_redacted-hides p (c ∷ name) [] password changed h k = absurd (omega arith)
format_proxy_redacted-hides p (c ∷ name) (d ∷ other) password changed h k = refl
