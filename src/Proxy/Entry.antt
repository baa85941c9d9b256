-- ===== src/Proxy/Entry.antt =====
-- shared/src/proxy.ts: parseProxyEntry.
pub mod Sound
pub mod Refusals
use proxy_pulse_crunchyroll.Prelude.{
  ℕ, Bool, false, not, ◌&&◌, ◌||◌, [], ◌∷◌, Option, none, some, ltb, leb, ◌==◌, if◌then◌else◌,
  is_some, or_default, length, drop, all, any,
}
use proxy_pulse_crunchyroll.Text.{
  Text, codes, is_digit, is_hex, is_space, trim, trim_start, to_lower, includes, split, before,
  starts_with, drop_first,
}
use proxy_pulse_crunchyroll.Types.{ProxyProtocol, http}
use proxy_pulse_crunchyroll.Robots.{cut, has_prefix}
use proxy_pulse_crunchyroll.Proxy.{
  ParseFailureReason, empty, too_long, no_port, invalid_port, invalid_host, invalid_scheme,
  invalid_credentials, ambiguous_format, ipv6_requires_brackets, not_an_entry, Checked, fine,
  refused, ◌>>=◌, Scheme, protocol, inherited, alias_of, is_letter, is_alnum, looks_like_markup,
  normalize_host, normalize_port, clean_credential, Userinfo, split_userinfo,
}
use proxy_pulse_crunchyroll.Proxy.Layout.{Layout, after_first, layout_of}

pub data ProtocolSource : Type 0 where
  scheme hint default : ProtocolSource

pub record ParseOptions : Type 0 where
  pub protocol_hint : Option ProxyProtocol
  pub default_protocol : Option ProxyProtocol

-- The anonymity is always unknown.
pub record NormalizedProxy : Type 0 where
  pub host : Text
  pub port : ℕ
  pub protocol : Scheme
  pub username : Option Text
  pub password : Option Text
  pub country : Option Text

-- The scheme that the entry carries, and what follows it.
abbrev pub Schemed : Type 0
Schemed = Option Scheme × Text

abbrev is_scheme_char : ℕ → Bool
is_scheme_char c = is_letter c || is_digit c || c == b'+' || c == b'.' || c == b'-'

-- `[a-z][a-z0-9+.-]{0,15}` with the flag `i`
abbrev is_scheme_name : Text → Bool
is_scheme_name [] = false
is_scheme_name (c ∷ s) = is_letter c && leb (length s) 15 && all is_scheme_char s

-- The scheme before the first colon, and what follows this.
abbrev pub scheme_prefix : Option (Text × Text) → Option (Text × Text)
scheme_prefix none = none
scheme_prefix (some (name, rest)) = if is_scheme_name name then some (name, rest) else none

abbrev known_scheme : Text → Option Scheme → Checked Schemed
known_scheme authority none = refused invalid_scheme
known_scheme authority (some s) = fine (some s, authority)

abbrev after_slashes : Text → Option Scheme → Checked Schemed
after_slashes authority none = refused invalid_scheme
after_slashes authority (some s) =
    if length authority == 0 then refused invalid_host else fine (some s, authority)

abbrev pub scheme_of : Text → Option (Text × Text) → Checked Schemed
scheme_of raw none = fine (none, raw)
scheme_of raw (some (name, rest)) =
    if has_prefix (codes "//") rest
    then after_slashes (drop 2 rest) (alias_of (to_lower name))
    else if not (includes b'@' raw)
    then known_scheme rest (alias_of (to_lower name))
    else fine (none, raw)

abbrev missing_port : Text → ParseFailureReason
missing_port host_part =
    let after_host =
      if starts_with b'[' host_part
      then after_first b']' host_part
      else after_first b':' host_part in
    if (includes b':' host_part || includes b']' host_part) && ltb 0 (length (trim after_host))
    then invalid_port
    else no_port

-- The host and the port are required.
abbrev pub require_host : Option Text → Checked Text
require_host none = refused invalid_host
require_host (some host) = fine host

abbrev pub require_port : Text → Option ℕ → Checked ℕ
require_port host_part none = refused (missing_port host_part)
require_port host_part (some port) = fine port

abbrev pub cleaned : Option Text → Checked (Option Text)
cleaned none = refused invalid_credentials
cleaned (some value) = fine (some value)

abbrev pub protocol_of : ParseOptions → Option Scheme → Scheme × ProtocolSource
protocol_of options (some s) = (s, scheme)
protocol_of options none = elim options.protocol_hint [
  | some p ↦ (protocol p, hint)
  | none ↦ (protocol (or_default options.default_protocol http), default)
]

module _ (decode : Text → Option Text) where
  -- A credential that is there and has something in it.
  abbrev pub credential : Option Text → Checked (Option Text)
  credential none = fine none
  credential (some []) = fine none
  credential (some (c ∷ s)) = cleaned (clean_credential decode (c ∷ s))

  abbrev pub account : Option Text → Option Text → Checked (Option Text × Option Text)
  account user pass = credential user >>= λ username. credential pass >>= λ password.
      if is_some password && not (is_some username)
      then refused invalid_credentials
      else fine (username, password)

  abbrev pub finish_entry :
      ParseOptions → Option Scheme → Text → Layout → Checked (NormalizedProxy × ProtocolSource)
  finish_entry options s host_part l = require_host l.host >>= λ host.
      require_port host_part l.port >>= λ port. account l.user l.pass >>= λ names. fine (
        record {
          host = host;
          port = port;
          protocol = (protocol_of options s).0;
          username = names.0;
          password = names.1;
          country = l.country;
        },
        (protocol_of options s).1,
      )

  abbrev pub parse_authority :
      ParseOptions → Text → Schemed → Checked (NormalizedProxy × ProtocolSource)
  parse_authority options raw (s, rest) =
      let authority = before b'/' rest in
      let u = split_userinfo authority in
      if includes b'?' authority || includes b'#' authority
      then refused ambiguous_format
      else layout_of raw u >>= finish_entry options s u.host

  unfoldable pub parse_proxy_entry :
      ParseOptions → Text → Checked (NormalizedProxy × ProtocolSource)
  unfolding looks_like_markup split_userinfo layout_of
  parse_proxy_entry options input =
      let raw = trim input in
      if length raw == 0
      then refused empty
      else if ltb 256 (length raw)
      then refused too_long
      else if any (λ c. c == 9 || c == 10 || c == 13) raw
      then refused ambiguous_format
      else if looks_like_markup raw
      then refused not_an_entry
      else scheme_of raw (scheme_prefix (cut b':' raw)) >>= parse_authority options raw
