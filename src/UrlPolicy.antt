-- ===== src/UrlPolicy.antt =====
-- shared/src/url-policy.ts: the first gate of the addresses that the worker fetches by itself. The
-- parser of the platform (`new URL`) is a parameter, `none` where it throws.
pub mod Accepting
mod Tests
use proxy_pulse_crunchyroll.Prelude.{
  ℕ, Bool, true, false, not, ◌&&◌, ◌||◌, List, [], ◌∷◌, Option, none, some, ltb, leb, ◌==◌,
  if◌then◌else◌, ◌>>=◌, or_default, length, any,
}
use proxy_pulse_crunchyroll.Text.{
  Text, codes, text_eq, is_space, trim, to_lower, ends_with_text, decimal_from,
}
use proxy_pulse_crunchyroll.Ip.Classify.{AddressClassification}
use proxy_pulse_crunchyroll.Ip.Inspect.{
  AddressKind, hostname, ipv4, ipv6, AddressVerdict, inspect_address, is_metadata,
  is_metadata_hostname, strip_brackets,
}

-- The fields of `URL` that the policy reads; `port` is empty or in decimal digits.
pub record Url : Type 0 where
  pub protocol : Text
  pub username : Text
  pub password : Text
  pub hostname : Text
  pub port : Text
  pub origin : Text

abbrev pub UrlParser : Type 0
UrlParser = Text → Option Url

-- `UrlPolicy` with its optional fields; `none` for `undefined`.
pub record UrlPolicy : Type 0 where
  pub allowed_protocols : Option (List Text)
  pub allow_private : Bool
  pub block_metadata : Option Bool
  pub allowed_ports : Option (List ℕ)
  pub max_url_length : Option ℕ

-- The source's reason strings, by what they say.
pub data Refusal : Type 0 where
  empty_url too_long unprintable malformed : Refusal
  protocol_not_allowed : Text → Refusal
  credentials missing_hostname localhost metadata_endpoint : Refusal
  address_not_allowed : AddressClassification → Text → Refusal
  invalid_port : Refusal
  port_not_listed : ℕ → Refusal
  smtp_port : Refusal

pub data UrlVerdict : Type 0 where
  accepted : Url → UrlVerdict
  refused : Refusal → UrlVerdict

-- `MAX_URL_LENGTH`
abbrev pub max_url_length : ℕ
max_url_length = 2048

-- `DEFAULT_PROTOCOLS`
abbrev pub default_protocols : List Text
default_protocols = codes "http:" ∷ codes "https:" ∷ []

-- `/[\s\p{Cc}]/u`
abbrev pub is_unprintable : ℕ → Bool
is_unprintable c = is_space c || ltb c 32 || (leb 127 c && leb c 159)

abbrev pub host_of : Url → Text
host_of url = to_lower (strip_brackets url.hostname)

abbrev pub is_localhost : Text → Bool
is_localhost host = text_eq host (codes "localhost") || ends_with_text (codes ".localhost") host

-- `verdict.kind !== 'hostname'`
abbrev pub is_literal : AddressVerdict → Bool
is_literal verdict = elim verdict.kind [ hostname ↦ false | _ ↦ true ]

abbrev pub is_refused_address : UrlPolicy → AddressVerdict → Bool
is_refused_address policy verdict =
    (is_literal verdict && verdict.blocked)
    && not (policy.allow_private && not (is_metadata verdict.classification))

abbrev pub port_of : Url → ℕ
port_of url = elim url.port [
  | [] ↦ if text_eq url.protocol (codes "https:") then 443 else 80
  | c ∷ s ↦ decimal_from 0 (c ∷ s)
]

-- Whether a list of ports is given and `port` is not among its entries.
abbrev pub is_unlisted_port : Option (List ℕ) → ℕ → Bool
is_unlisted_port none port = false
is_unlisted_port (some []) port = false
is_unlisted_port (some (p ∷ ps)) port = not (any (λ q. q == port) (p ∷ ps))

-- The tests on the port, the last ones.
check_port : UrlPolicy → Url → UrlVerdict
check_port policy url =
    let port = port_of url in
    if ltb port 1 || ltb 65535 port
    then refused invalid_port
    else if is_unlisted_port policy.allowed_ports port
    then refused (port_not_listed port)
    else if port == 25
    then refused smtp_port
    else accepted url

-- The tests on the host, and those behind them.
check_host : UrlPolicy → Url → UrlVerdict
unfolding check_port
check_host policy url =
    let host = host_of url in
    let verdict = inspect_address host in
    if is_localhost host
    then refused localhost
    else if or_default policy.block_metadata true && is_metadata_hostname host
    then refused metadata_endpoint
    else if is_refused_address policy verdict
    then refused (address_not_allowed verdict.classification host)
    else check_port policy url

-- The tests on what the parser gave, and those behind them.
check_url : UrlPolicy → Option Url → UrlVerdict
unfolding check_host
check_url policy none = refused malformed
check_url policy (some url) =
    if not (any (text_eq url.protocol) (or_default policy.allowed_protocols default_protocols))
    then refused (protocol_not_allowed url.protocol)
    else if ltb 0 (length url.username) || ltb 0 (length url.password)
    then refused credentials
    else if length url.hostname == 0
    then refused missing_hostname
    else check_host policy url

unfoldable pub check_url_policy : UrlParser → Text → UrlPolicy → UrlVerdict
unfolding check_url
check_url_policy parse raw policy =
    let value = trim raw in
    if length value == 0
    then refused empty_url
    else if ltb (or_default policy.max_url_length max_url_length) (length value)
    then refused too_long
    else if any is_unprintable value
    then refused unprintable
    else check_url policy (parse value)

unfoldable pub host_is_literal_ip : Text → Bool
host_is_literal_ip host = is_literal (inspect_address (strip_brackets host))

unfoldable pub origin_of : UrlParser → Text → Option Text
origin_of parse url = parse url >>= λ parsed. some parsed.origin
