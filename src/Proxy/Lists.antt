-- ===== src/Proxy/Lists.antt =====
-- shared/src/proxy.ts: dedupeKey and parseProxyList.
pub mod Batch
use proxy_pulse_crunchyroll.Prelude.{
  ℕ, zero, suc, ◌+◌, ◌/◌, ◌%◌, Bool, false, not, ◌&&◌, ◌||◌, List, [], ◌∷◌, ◌++◌, Option, none,
  some, ltb, leb, ◌==◌, if◌then◌else◌, or_default, length, take, any, keep,
}
use proxy_pulse_crunchyroll.Text.{
  Text, codes, text_eq, is_digit, is_space, trim, to_lower, includes,
}
use proxy_pulse_crunchyroll.Types.{ProxyProtocol, http, https, socks4, socks5}
use proxy_pulse_crunchyroll.Robots.{lines, has_prefix}
use proxy_pulse_crunchyroll.Proxy.{
  ParseFailureReason, too_long, not_an_entry, Checked, fine, refused, Scheme, protocol, inherited,
  is_alnum, looks_like_markup,
}
use proxy_pulse_crunchyroll.Proxy.Entry.{
  ProtocolSource, ParseOptions, NormalizedProxy, parse_proxy_entry,
}

-- A number in decimal digits, of which twenty are enough.
digits_from : ℕ → ℕ → Text
digits_from zero n = []
digits_from (suc fuel) n =
    let high = digits_from fuel (n / 10) in
    if ltb n 10 then (48 + n) ∷ [] else high ++ ((48 + n % 10) ∷ [])

unfoldable pub decimal : ℕ → Text
unfolding digits_from
decimal n = digits_from 20 n

abbrev pub name_of : Scheme → Text
name_of (protocol http) = codes "http"
name_of (protocol https) = codes "https"
name_of (protocol socks4) = codes "socks4"
name_of (protocol socks5) = codes "socks5"
name_of inherited = codes "function Object() { [native code] }"

unfoldable pub dedupe_key : NormalizedProxy → Text
unfolding decimal to_lower
dedupe_key p =
    name_of p.protocol
    ++ (b'|'
        ∷ (to_lower p.host
            ++ (b'|' ∷ (decimal p.port ++ (b'|' ∷ to_lower (or_default p.username []))))))

-- The letters and digits of a label, in lower case.
unfoldable pub detect_protocol_from_label : Text → Option ProxyProtocol
unfolding to_lower
detect_protocol_from_label label =
    let token = keep is_alnum (to_lower label) in
    if has_prefix (codes "socks4") token
    then some socks4
    else if has_prefix (codes "socks5") token || text_eq token (codes "socks")
    then some socks5
    else if has_prefix (codes "https") token
    then some https
    else if has_prefix (codes "http") token
    then some http
    else none

-- The variables of `parseProxyList`; `seen` is the set of keys, and `hint` the protocol of the section.
pub record Listing : Type 0 where
  pub proxies : List NormalizedProxy
  pub rejected : List (Text × ParseFailureReason)
  pub seen : List Text
  pub duplicates : ℕ
  pub skipped_lines : ℕ
  pub hint : Option ProxyProtocol

abbrev pub reject : Text → ParseFailureReason → Listing → Listing
reject line reason l = record l { rejected = l.rejected ++ ((take 48 line, reason) ∷ []) }

abbrev pub skip_line : Listing → Listing
skip_line l = record l { skipped_lines = l.skipped_lines + 1 }

unfoldable pub add_proxy : NormalizedProxy → Listing → Listing
unfolding dedupe_key
add_proxy p l =
    if any (text_eq (dedupe_key p)) l.seen
    then record l { duplicates = l.duplicates + 1 }
    else record l { seen = l.seen ++ (dedupe_key p ∷ []); proxies = l.proxies ++ (p ∷ []) }

abbrev pub is_comment : Text → Bool
is_comment line =
    has_prefix (codes "#") line || has_prefix (codes "//") line || has_prefix (codes ";") line

-- No white space, and a digit.
abbrev pub is_bare_host : Text → Bool
is_bare_host line = not (any is_space line) && any is_digit line

-- Whether the loop ends after a line: a proxy has been added, and there are as many as asked for.
abbrev pub is_full : Option ℕ → Listing → Listing → Bool
is_full none l next = false
is_full (some max_entries) l next =
    ltb (length l.proxies) (length next.proxies) && leb max_entries (length next.proxies)

module _ (decode : Text → Option Text) (options : ParseOptions) where
  abbrev pub parsed_entry : Text → Listing → Checked (NormalizedProxy × ProtocolSource) → Listing
  parsed_entry line l (fine r) = add_proxy r.0 l
  parsed_entry line l (refused reason) = reject line reason l

  -- `hint ?? options.protocolHint`; the hint begins as that of the options.
  abbrev first_hint : Option ProxyProtocol → Option ProxyProtocol
  first_hint none = options.protocol_hint
  first_hint (some p) = some p

  abbrev pub entry_line : Text → Listing → Listing
  entry_line line l =
      parsed_entry line l
        (parse_proxy_entry decode (record options { protocol_hint = first_hint l.hint }) line)

  -- A line without a colon: a label, prose, or what could be a host.
  abbrev pub plain_line : Text → Listing → Option ProxyProtocol → Listing
  plain_line line l (some p) = skip_line (record l { hint = some p })
  plain_line line l none = if not (is_bare_host line) then skip_line l else entry_line line l

  unfoldable pub list_line : Text → Listing → Listing
  unfolding detect_protocol_from_label add_proxy
  list_line raw_line l =
      let line = trim raw_line in
      if length line == 0
      then l
      else if is_comment line
      then skip_line l
      else if ltb 256 (length line)
      then reject line too_long l
      else if looks_like_markup line
      then reject line not_an_entry l
      else if not (includes b':' line)
      then plain_line line l (detect_protocol_from_label line)
      else entry_line line l

  unfoldable pub list_lines : Option ℕ → List Text → Listing → Listing
  unfolding list_line
  list_lines max_entries [] l = l
  list_lines max_entries (line ∷ rest) l =
      let next = list_line line l in
      let more = list_lines max_entries rest next in
      if is_full max_entries l next then next else more

  abbrev pub start_listing : Listing
  start_listing = record {
    proxies = [];
    rejected = [];
    seen = [];
    duplicates = 0;
    skipped_lines = 0;
    hint = options.protocol_hint;
  }

  -- The listing, and `total_lines`.
  unfoldable pub parse_proxy_list : Option ℕ → Text → Listing × ℕ
  unfolding list_lines
  parse_proxy_list max_entries text =
      (list_lines max_entries (lines text) start_listing, length (lines text))
