-- ===== src/Proxy/Layout.antt =====
-- shared/src/proxy.ts: how parseProxyEntry divides what follows the scheme.
use proxy_pulse_crunchyroll.Prelude.{
  ℕ, ◌-◌, Bool, false, not, ◌&&◌, ◌||◌, List, [], ◌∷◌, ◌++◌, map, Option, none, some, leb, ◌==◌,
  if◌then◌else◌, is_some, length, all, any,
}
use proxy_pulse_crunchyroll.Text.{
  Text, is_hex, is_space, trim, trim_start, includes, split, before, starts_with,
}
use proxy_pulse_crunchyroll.Robots.{cut}
use proxy_pulse_crunchyroll.Proxy.{
  no_port, invalid_host, ambiguous_format, ipv6_requires_brackets, Checked, fine, refused,
  is_letter, normalize_host, normalize_port, Userinfo,
}

-- The parts of the endpoint, before they are required.
pub record Layout : Type 0 where
  pub host : Option Text
  pub port : Option ℕ
  pub user : Option Text
  pub pass : Option Text
  pub country : Option Text

abbrev pub endpoint : Text → Text → Layout
endpoint host port = record {
  host = normalize_host host;
  port = normalize_port port;
  user = none;
  pass = none;
  country = none;
}

-- `s.slice(s.indexOf(d) + 1)`
abbrev pub after_first : ℕ → Text → Text
after_first d s = elim (cut d s) [ none ↦ s | some (a, b) ↦ b ]

-- `s.replace(/^:/, '')`
abbrev drop_colon : Text → Text
drop_colon [] = []
drop_colon (c ∷ s) = if c == b':' then s else c ∷ s

-- `s.split(':').slice(1).join(':')`
abbrev after_colon : Text → Text
after_colon s = elim (cut b':' s) [ none ↦ [] | some (a, b) ↦ b ]

abbrev pub with_userinfo : Userinfo → Layout
with_userinfo u = record {
  host = normalize_host (before b':' u.host);
  port = normalize_port (
      if starts_with b'[' u.host then drop_colon (after_first b']' u.host) else after_colon u.host);
  user = u.user;
  pass = u.pass;
  country = none;
}

-- The fields of `s.split(/\s+/)` before the first white space, and from there to the next.
field : Text → Text
field [] = []
field (c ∷ s) = let rest = field s in if is_space c then [] else c ∷ rest

after_field : Text → Text
after_field [] = []
after_field (c ∷ s) = let rest = after_field s in if is_space c then c ∷ s else rest

unfoldable pub spaced : Text → Layout
unfolding field after_field
spaced host_part = endpoint (field host_part) (field (trim_start (after_field host_part)))

abbrev is_ipv6_field : Text → Bool
is_ipv6_field p = length p == 0 || (leb (length p) 4 && all is_hex p)

abbrev pub looks_like_unbracketed_ipv6 : List Text → Bool
looks_like_unbracketed_ipv6 parts =
    leb 5 (length parts)
    && all is_ipv6_field parts
    && (any (λ p. length p == 0) parts || leb 7 (length parts))

-- COUNTRY_RE of the lower case, and the upper case.
abbrev pub is_country : Text → Bool
is_country (a ∷ b ∷ []) = is_letter a && is_letter b
is_country _ = false

abbrev pub to_upper : Text → Text
to_upper s = map (λ c. if leb b'a' c && leb c b'z' then c - 32 else c) s

abbrev pub with_account : Text → Text → Text → Text → Option Text → Checked Layout
with_account host port user pass country =
    if length user == 0
    then refused ambiguous_format
    else fine (record {
      host = normalize_host host;
      port = normalize_port port;
      user = some user;
      pass = some pass;
      country = country;
    })

abbrev pub no_colon : Text → Option Text → Checked Layout
no_colon raw none = refused (if includes b':' raw then ipv6_requires_brackets else invalid_host)
no_colon raw (some host) = refused no_port

-- The fields between the colons.
unfoldable pub colon_fields : Text → List Text → Checked Layout
colon_fields raw [] = refused ambiguous_format
colon_fields raw (a ∷ []) = no_colon raw (normalize_host a)
colon_fields raw (a ∷ b ∷ []) = fine (endpoint a b)
colon_fields raw (a ∷ b ∷ c ∷ []) = refused ambiguous_format
colon_fields raw (a ∷ b ∷ c ∷ d ∷ []) = with_account a b c d none
colon_fields raw (a ∷ b ∷ c ∷ d ∷ e ∷ []) =
    if length c == 0
    then refused ambiguous_format
    else if not (is_country e)
    then refused ambiguous_format
    else with_account a b c d (some (to_upper e))
colon_fields raw (a ∷ b ∷ c ∷ d ∷ e ∷ f ∷ ps) =
    if all (λ p. leb 1 (length p) && all is_hex p) (a ∷ b ∷ c ∷ d ∷ e ∷ f ∷ ps)
    then refused ipv6_requires_brackets
    else refused ambiguous_format

-- `/^\[[^\]]+\]/`, with the host and what follows it.
abbrev pub bracketed : Option (Text × Text) → Option (Text × Text)
bracketed none = none
bracketed (some (a, b)) =
    if starts_with b'[' a && leb 2 (length a) then some (a ++ (b']' ∷ []), b) else none

abbrev pub without_userinfo : Text → Text → Option (Text × Text) → Checked Layout
without_userinfo raw host_part (some (host, rest)) = fine (endpoint host (drop_colon rest))
without_userinfo raw host_part none =
    if includes 32 host_part && not (includes b':' host_part)
    then fine (spaced host_part)
    else if looks_like_unbracketed_ipv6 (split b':' host_part)
    then refused ipv6_requires_brackets
    else colon_fields raw (split b':' host_part)

unfoldable pub layout_of : Text → Userinfo → Checked Layout
unfolding spaced colon_fields
layout_of raw u =
    if is_some u.user
    then (if includes 32 u.host || length (trim u.host) == 0
        then refused invalid_host
        else fine (with_userinfo u))
    else without_userinfo raw u.host (bracketed (cut b']' u.host))
