-- ===== src/UrlPolicy/Tests.antt =====
-- Runs of the URL policy, and its theorem at a concrete input.
use proxy_pulse_crunchyroll.Prelude.{◌≡◌, refl, ◌↔◌, true, [], none, some, if◌then◌else◌}
use proxy_pulse_crunchyroll.Text.{codes, text_eq, trim, to_lower, decimal_from}
use proxy_pulse_crunchyroll.Text.{split}
use proxy_pulse_crunchyroll.Ip.Ipv4.{parse_ipv4, parse_octet}
use proxy_pulse_crunchyroll.Ip.Classify.{is_blocked, classify_v4}
use proxy_pulse_crunchyroll.Ip.Inspect.{inspect_address, strip_brackets, is_metadata_hostname}
use proxy_pulse_crunchyroll.UrlPolicy.{
  Url, UrlParser, UrlPolicy, accepted, refused, metadata_endpoint, smtp_port, check_url_policy,
}
use proxy_pulse_crunchyroll.UrlPolicy.Accepting.{IsWellFormed, IsAllowed, check_url_policy_iff}

abbrev source : Url
source = record {
  protocol = codes "https:";
  username = [];
  password = [];
  hostname = codes "8.8.8.8";
  port = codes "8443";
  origin = codes "https://8.8.8.8:8443";
}

-- A parser that knows three texts.
abbrev parse : UrlParser
parse value =
    if text_eq value (codes "https://8.8.8.8:8443/")
    then some source
    else if text_eq value (codes "https://8.8.8.8:25/")
    then some (record source { port = codes "25" })
    else if text_eq value (codes "http://[fd00:ec2::254]/")
    then some (record source { hostname = codes "[fd00:ec2::254]" })
    else none

abbrev policy : UrlPolicy
policy = record {
  allowed_protocols = none;
  allow_private = true;
  block_metadata = none;
  allowed_ports = none;
  max_url_length = none;
}

verdicts :
    (check_url_policy parse (codes " https://8.8.8.8:8443/ ") policy ≡ accepted source)
    × (check_url_policy parse (codes "https://8.8.8.8:25/") policy ≡ refused smtp_port)
    × (check_url_policy parse (codes "http://[fd00:ec2::254]/") policy ≡ refused metadata_endpoint)
unfolding check_url_policy trim to_lower strip_brackets decimal_from inspect_address parse_ipv4
    parse_octet split is_metadata_hostname is_blocked classify_v4
verdicts = (refl, refl, refl)

check_url_policy_iff_example :
    (check_url_policy parse (codes " https://8.8.8.8:8443/ ") policy ≡ accepted source) ↔ (
      IsWellFormed policy (trim (codes " https://8.8.8.8:8443/ "))
      × (parse (trim (codes " https://8.8.8.8:8443/ ")) ≡ some source)
      × IsAllowed policy source)
check_url_policy_iff_example =
    check_url_policy_iff parse (codes " https://8.8.8.8:8443/ ") policy source
