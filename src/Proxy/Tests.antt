-- ===== src/Proxy/Tests.antt =====
-- Runs of the parser, and its theorems at concrete inputs.
use proxy_pulse_crunchyroll.Prelude.{
  ◌≤◌, ◌≡◌, refl, false, [], ◌∷◌, ◌++◌, map, Option, none, some, length,
}
use proxy_pulse_crunchyroll.Text.{
  Text, codes, to_lower, includes, trim, trim_start, is_space, lower, split, decimal_from, before,
}
use proxy_pulse_crunchyroll.Types.{socks5}
use proxy_pulse_crunchyroll.Robots.{cut}
use proxy_pulse_crunchyroll.Proxy.{
  not_an_entry, fine, refused, protocol, alias_of, looks_like_markup, valid_host, normalize_host,
  normalize_port, clean_credential, cut_last, split_userinfo,
}
use proxy_pulse_crunchyroll.Proxy.Layout.{layout_of}
use proxy_pulse_crunchyroll.Proxy.Entry.{
  ProtocolSource, ParseOptions, scheme_prefix, parse_proxy_entry,
}
use proxy_pulse_crunchyroll.Proxy.Entry.Sound.{Holds, IsSound, parse_proxy_entry-Sound}
use proxy_pulse_crunchyroll.Proxy.Lists.{dedupe_key, parse_proxy_list}
use proxy_pulse_crunchyroll.Proxy.Lists.Batch.{
  AreDistinct, counted, IsWithin, parse_proxy_list-Listed,
}
use proxy_pulse_crunchyroll.Proxy.Identity.{fnv_from, hex_from}

abbrev as_is : Text → Option Text
as_is s = some s

abbrev no_options : ParseOptions
no_options = record { protocol_hint = none; default_protocol = none }

abbrev entry : Text
entry = codes " socks5://Bob:pw@1.2.3.4:1080/ "

entry_run :
    parse_proxy_entry as_is no_options entry
    ≡ fine (
      record {
        host = codes "1.2.3.4";
        port = 1080;
        protocol = protocol socks5;
        username = some (codes "Bob");
        password = some (codes "pw");
        country = none;
      },
      ProtocolSource.scheme,
    )
unfolding parse_proxy_entry trim trim_start is_space looks_like_markup cut alias_of to_lower lower
    split_userinfo cut_last layout_of normalize_host valid_host normalize_port split decimal_from
    clean_credential before
entry_run = refl

parse_proxy_entry-Sound_example :
    Holds (λ r. IsSound r.0) (parse_proxy_entry as_is no_options entry)
parse_proxy_entry-Sound_example = parse_proxy_entry-Sound as_is no_options entry

-- An IPv6 address in brackets is taken for markup.
brackets_refused :
    parse_proxy_entry as_is no_options (codes "[2001:db8::1]:8080") ≡ refused not_an_entry
unfolding parse_proxy_entry trim trim_start is_space looks_like_markup
brackets_refused = refl

abbrev short_name : Text
short_name = codes "example.org:8080"

name_first : scheme_prefix (cut b':' (trim short_name)) ≡ some (codes "example.org", codes "8080")
unfolding trim trim_start is_space cut
name_first = refl

name_unknown : alias_of (to_lower (codes "example.org")) ≡ none
unfolding alias_of to_lower lower
name_unknown = refl

name_only : includes b'@' (trim short_name) ≡ false
unfolding trim trim_start is_space
name_only = refl

abbrev batch : Text
batch = codes "# list" ++ (10 ∷ (codes "1.2.3.4:80" ++ (10 ∷ codes "1.2.3.4:80")))

parse_proxy_list-Listed_example :
    let (l, total) = parse_proxy_list as_is no_options (some 10) batch in
    AreDistinct [] (map dedupe_key l.proxies)
    × (counted l ≤ total)
    × IsWithin (some 10) (length l.proxies)
parse_proxy_list-Listed_example = parse_proxy_list-Listed as_is no_options (some 10) batch

-- The published hash of one letter.
hash_run : hex_from 16 (fnv_from 0xcbf29ce484222325 (codes "a")) ≡ codes "af63dc4c8601ec8c"
unfolding hex_from fnv_from
hash_run = refl
