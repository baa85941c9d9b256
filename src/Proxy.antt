-- ===== src/Proxy.antt =====
-- shared/src/proxy.ts: entries of proxy lists. Here are the parts of an entry; Layout and Entry are
-- parseProxyEntry and Lists is parseProxyList. `decodeURIComponent` of the runtime is a parameter, `none` where it throws.
pub mod Layout
pub mod Entry
pub mod Lists
pub mod Identity
mod Tests
use proxy_pulse_crunchyroll.Prelude.{
  ℕ, ◌-◌, Bool, true, false, not, ◌&&◌, ◌||◌, List, [], ◌∷◌, Option, none, some, ltb, leb, ◌==◌,
  if◌then◌else◌, or_default, length, get_or, all,
}
use proxy_pulse_crunchyroll.Text.{
  Text, codes, text_eq, is_digit, is_hex, is_space, trim, to_lower, includes, split, before,
  starts_with, ends_with, drop_first, drop_last, decimal_from,
}
use proxy_pulse_crunchyroll.Types.{ProxyProtocol, http, https, socks4, socks5}
use proxy_pulse_crunchyroll.Robots.{cut, has_prefix}

pub data ParseFailureReason : Type 0 where
  empty too_long no_port invalid_port invalid_host invalid_scheme : ParseFailureReason
  invalid_credentials ambiguous_format ipv6_requires_brackets not_an_entry : ParseFailureReason

-- A result, or the reason why there is none.
pub data Checked {ℓ} (A : Type ℓ) : Type ℓ where
  fine : A → Checked A
  refused : ParseFailureReason → Checked A

infixl 5 ◌>>=◌
abbrev pub ◌>>=◌ {ℓ κ} : {A : Type ℓ} {B : Type κ} → Checked A → (A → Checked B) → Checked B
fine a >>= f = f a
refused r >>= f = refused r

-- What PROTOCOL_ALIASES has for a scheme. The object inherits a property named `constructor`, which is no
-- protocol, but is found too.
pub data Scheme : Type 0 where
  protocol : ProxyProtocol → Scheme
  inherited : Scheme

unfoldable pub alias_of : Text → Option Scheme
alias_of scheme =
    if text_eq scheme (codes "http")
    then some (protocol http)
    else if text_eq scheme (codes "https") || text_eq scheme (codes "tls")
    then some (protocol https)
    else if text_eq scheme (codes "socks4") || text_eq scheme (codes "socks4a")
    then some (protocol socks4)
    else if text_eq scheme (codes "socks5")
        || text_eq scheme (codes "socks5h")
        || text_eq scheme (codes "socks")
    then some (protocol socks5)
    else if text_eq scheme (codes "constructor")
    then some inherited
    else none

-- `[a-z]` with the flag `i`; `[a-z0-9]` without it.
abbrev pub is_letter : ℕ → Bool
is_letter c = (leb b'a' c && leb c b'z') || (leb b'A' c && leb c b'Z')

abbrev pub is_alnum : ℕ → Bool
is_alnum c = is_digit c || (leb b'a' c && leb c b'z')

-- `[a-z0-9]*[\s/>]` with the flag `i`, at the start.
markup_ends : Text → Bool
markup_ends [] = false
markup_ends (c ∷ s) =
    let more = markup_ends s in
    if is_letter c || is_digit c then more else is_space c || c == b'/' || c == b'>'

-- MARKUP_RE at the start, after its `<`, and anywhere.
abbrev tag_name : Text → Bool
tag_name [] = false
tag_name (c ∷ s) = is_letter c && markup_ends s

abbrev tag_start : Text → Bool
tag_start [] = false
tag_start (c ∷ s) = if c == b'/' then tag_name s else tag_name (c ∷ s)

unfoldable pub has_markup : Text → Bool
unfolding markup_ends
has_markup [] = false
has_markup (c ∷ s) = (c == b'<' && tag_start s) || has_markup s

unfoldable pub looks_like_markup : Text → Bool
unfolding has_markup
looks_like_markup line =
    let value = trim line in
    if length value == 0
    then false
    else has_markup value
      || starts_with b'{' value
      || starts_with b'[' value
      || has_prefix (codes "<?xml") value
      || has_prefix (codes "<!doctype") value

-- A label of HOSTNAME_RE.
abbrev first_of : Text → ℕ
first_of s = get_or s 0 0

abbrev last_of : Text → ℕ
last_of s = get_or s (length s - 1) 0

abbrev pub is_label : Text → Bool
is_label s =
    leb 1 (length s)
    && leb (length s) 63
    && all (λ c. is_alnum c || c == b'-') s
    && is_alnum (first_of s)
    && is_alnum (last_of s)

-- IPV4_LIKE_RE, of the parts between the dots.
abbrev is_ipv4_like : List Text → Bool
is_ipv4_like parts =
    length parts == 4 && all (λ p. leb 1 (length p) && leb (length p) 3 && all is_digit p) parts

unfoldable pub valid_host : Text → Bool
valid_host host =
    let parts = split b'.' host in
    if length host == 0 || ltb 253 (length host)
    then false
    else if includes b':' host
    then false
    else if not (all is_label parts)
    then false
    else if is_ipv4_like parts
    then all (λ octet. leb (decimal_from 0 octet) 255) parts
    else true

-- What is in brackets, without a zone.
abbrev bracketed_host : Text → Option Text
bracketed_host host =
    let without_zone = before b'%' (drop_last (drop_first host)) in
    if includes b':' without_zone then some (to_lower without_zone) else none

abbrev pub without_root : Text → Text
without_root host = if ends_with b'.' host then drop_last host else host

abbrev plain_host : Text → Option Text
plain_host host =
    if length host == 0
    then none
    else if includes b':' host
    then none
    else if includes b'/' host || includes b'?' host || includes b'#' host
    then none
    else if valid_host host
    then some host
    else none

unfoldable pub normalize_host : Text → Option Text
unfolding valid_host
normalize_host raw =
    let host = trim raw in
    if length host == 0
    then none
    else if starts_with b'[' host && ends_with b']' host
    then bracketed_host host
    else plain_host (without_root (to_lower host))

-- Of a string that is there.
unfoldable pub normalize_port : Text → Option ℕ
normalize_port raw =
    let value = trim raw in
    if not (leb 1 (length value) && leb (length value) 5 && all is_digit value)
    then none
    else if ltb (decimal_from 0 value) 1 || ltb 65535 (decimal_from 0 value)
    then none
    else some (decimal_from 0 value)

-- CREDENTIAL_CHARSET_RE
abbrev pub is_printable : ℕ → Bool
is_printable c = leb 0x20 c && leb c 0x7e

-- `allowColon` is false in every call.
unfoldable pub clean_credential : (Text → Option Text) → Text → Option Text
clean_credential decode raw =
    let value = or_default (decode raw) raw in
    if length value == 0 || ltb 128 (length value)
    then none
    else if not (all is_printable value)
    then none
    else if includes b':' value
    then none
    else if includes b'@' value
    then none
    else some value

-- `s.lastIndexOf(d)`, with the parts before and after it.
unfoldable pub cut_last : ℕ → Text → Option (Text × Text)
cut_last d [] = none
cut_last d (c ∷ s) = elim (cut_last d s) [
  | some (a, b) ↦ some (c ∷ a, b)
  | none ↦ if c == d then some ([], s) else none
]

pub record Userinfo : Type 0 where
  pub user : Option Text
  pub pass : Option Text
  pub host : Text

abbrev userinfo_of : Text → Option (Text × Text) → Userinfo
userinfo_of authority none = record { user = none; pass = none; host = authority }
userinfo_of authority (some (userinfo, host)) = elim (cut b':' userinfo) [
  | none ↦ record { user = some userinfo; pass = none; host = host }
  | some (user, pass) ↦ record { user = some user; pass = some pass; host = host }
]

unfoldable pub split_userinfo : Text → Userinfo
split_userinfo authority = userinfo_of authority (cut_last b'@' authority)
