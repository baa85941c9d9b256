-- ===== src/Ip/Inspect.antt =====
-- shared/src/ip.ts: the verdict on a host and the endpoint policy.
pub mod Policy
pub mod Literals
use proxy_pulse_crunchyroll.Prelude.{
  ℕ, ◌+◌, ◌-◌, ◌*◌, Bool, true, false, not, ◌&&◌, ◌||◌, List, [], ◌∷◌, Option, none, some, ltb, leb,
  ◌==◌, if◌then◌else◌, length, drop, all, any,
}
use proxy_pulse_crunchyroll.Text.{
  Text, codes, text_eq, is_digit, is_hex, trim, to_lower, starts_with, ends_with, drop_first,
  drop_last, ends_with_text, includes, split, decimal_from,
}
use proxy_pulse_crunchyroll.Ip.Ipv4.{Ipv4, parse_ipv4}
use proxy_pulse_crunchyroll.Ip.Ipv6.{parse_ipv6}
use proxy_pulse_crunchyroll.Ip.Classify.{
  AddressClassification, public, private, invalid, cloud_metadata, is_blocked, classify_v4,
  classify_v6_bytes, is_v6_metadata,
}

pub data AddressKind : Type 0 where
  hostname ipv4 ipv6 : AddressKind

-- The source's reason strings, by what they say.
pub data Reason : Type 0 where
  empty_host public_ipv4 public_ipv6 malformed_ipv6 non_canonical requires_dns : Reason
  ipv4_not_allowed ipv6_not_allowed : AddressClassification → Reason
  explicitly_allowed : Reason
  allowed_by_allow_private : AddressClassification → Reason

pub record AddressVerdict : Type 0 where
  pub blocked : Bool
  pub kind : AddressKind
  pub classification : AddressClassification
  pub reason : Reason

-- `/^(?:0[xX][0-9a-fA-F]+|\d+)$/.test(label)`
is_numeric_label : Text → Bool
is_numeric_label [] = false
is_numeric_label (c ∷ []) = is_digit c
is_numeric_label (c ∷ x ∷ []) = is_digit c && is_digit x
is_numeric_label (c ∷ x ∷ d ∷ s) =
    (c == b'0' && (x == b'x' || x == b'X') && all is_hex (d ∷ s)) || all is_digit (c ∷ x ∷ d ∷ s)

hex_digit_value : ℕ → ℕ
hex_digit_value c =
    if is_digit c then c - b'0' else if leb b'a' c then c - b'a' + 10 else c - b'A' + 10

hexadecimal_from : ℕ → Text → ℕ
unfolding hex_digit_value
hexadecimal_from acc [] = acc
hexadecimal_from acc (c ∷ s) = hexadecimal_from (acc * 16 + hex_digit_value c) s

-- `Number(label)` at a numeric label.
label_value : Text → ℕ
unfolding hexadecimal_from decimal_from
label_value (c ∷ x ∷ d ∷ s) =
    if x == b'x' || x == b'X' then hexadecimal_from 0 (d ∷ s) else decimal_from 0 (c ∷ x ∷ d ∷ s)
label_value [] = 0
label_value (c ∷ []) = decimal_from 0 (c ∷ [])
label_value (c ∷ x ∷ []) = decimal_from 0 (c ∷ x ∷ [])

-- `/^0\d+$/.test(label)`
is_padded : Text → Bool
is_padded (c ∷ d ∷ s) = c == b'0' && all is_digit (d ∷ s)
is_padded [] = false
is_padded (c ∷ []) = false

is_suspicious : Text → Bool
unfolding is_padded label_value
is_suspicious label = is_padded label || ltb 3 (length label) || ltb 255 (label_value label)

-- `/^\d+$/.test(label)`
is_number : Text → Bool
is_number [] = false
is_number (c ∷ s) = all is_digit (c ∷ s)

suspicious_labels : List Text → Bool
unfolding is_numeric_label is_suspicious is_number
suspicious_labels [] = false
suspicious_labels (label ∷ []) = is_number label
suspicious_labels (p ∷ q ∷ ps) =
    if ltb 4 (length (p ∷ q ∷ ps))
    then false
    else if not (all is_numeric_label (p ∷ q ∷ ps))
    then false
    else any is_suspicious (p ∷ q ∷ ps)

unfoldable pub looks_like_non_canonical_ip_literal : Text → Bool
unfolding suspicious_labels
looks_like_non_canonical_ip_literal host = suspicious_labels (split b'.' host)

-- `host.replace(/^\[|\]$/g, '')`
unfoldable pub strip_brackets : Text → Text
strip_brackets s =
    let t = if starts_with b'[' s then drop_first s else s in
    if ends_with b']' t then drop_last t else t

abbrev v4_verdict : AddressClassification → AddressVerdict
v4_verdict c = record {
  blocked = is_blocked c;
  kind = ipv4;
  classification = c;
  reason = if is_blocked c then ipv4_not_allowed c else public_ipv4;
}

abbrev v6_verdict : AddressClassification → AddressVerdict
v6_verdict c = record {
  blocked = is_blocked c;
  kind = ipv6;
  classification = c;
  reason = if is_blocked c then ipv6_not_allowed c else public_ipv6;
}

abbrev pub v6_classification : List ℕ → AddressClassification
v6_classification bytes = if is_v6_metadata bytes then cloud_metadata else classify_v6_bytes bytes

abbrev v6_result : Option (List ℕ) → AddressVerdict
v6_result none = record {
  blocked = true;
  kind = ipv6;
  classification = invalid;
  reason = malformed_ipv6;
}
v6_result (some bytes) = v6_verdict (v6_classification bytes)

-- The tests on a host that is no dotted quad.
inspect_other : Text → AddressVerdict
inspect_other raw =
    if includes b':' raw
    then v6_result (parse_ipv6 raw)
    else if looks_like_non_canonical_ip_literal raw
    then record { blocked = true; kind = ipv4; classification = private; reason = non_canonical }
    else record { blocked = false; kind = hostname; classification = public; reason = requires_dns }

abbrev v4_result : Text → Option Ipv4 → AddressVerdict
v4_result raw none = inspect_other raw
v4_result raw (some q) = v4_verdict (classify_v4 q)

inspect_raw : Text → AddressVerdict
unfolding inspect_other
inspect_raw [] = record {
  blocked = true;
  kind = hostname;
  classification = invalid;
  reason = empty_host;
}
inspect_raw (c ∷ s) = v4_result (c ∷ s) (parse_ipv4 (c ∷ s))

unfoldable pub inspect_address : Text → AddressVerdict
unfolding inspect_raw
inspect_address host = inspect_raw (to_lower (strip_brackets (trim host)))

pub record EndpointPolicyOptions : Type 0 where
  pub allow_private : Bool
  pub allow : List Text

pub record EndpointDecision : Type 0 where
  pub ok : Bool
  pub reason : Reason
  pub classification : AddressClassification

abbrev pub is_metadata : AddressClassification → Bool
is_metadata cloud_metadata = true
is_metadata _ = false

unfoldable pub is_proxy_endpoint_allowed : Text → EndpointPolicyOptions → EndpointDecision
is_proxy_endpoint_allowed host options =
    if any (text_eq (strip_brackets host)) options.allow
    then record { ok = true; reason = explicitly_allowed; classification = public }
    else (let verdict = inspect_address host in
        if not verdict.blocked
        then record { ok = true; reason = verdict.reason; classification = verdict.classification }
        else if options.allow_private && not (is_metadata verdict.classification)
        then record {
          ok = true;
          reason = allowed_by_allow_private verdict.classification;
          classification = verdict.classification;
        }
        else record {
          ok = false;
          reason = verdict.reason;
          classification = verdict.classification;
        })

abbrev cloud_metadata_hosts : List Text
cloud_metadata_hosts =
    codes "169.254.169.254"
    ∷ codes "169.254.170.2"
    ∷ codes "metadata.google.internal"
    ∷ codes "metadata.goog"
    ∷ codes "fd00:ec2::254"
    ∷ []

unfoldable pub is_metadata_hostname : Text → Bool
is_metadata_hostname host =
    let normalized = strip_brackets (to_lower host) in
    any (text_eq normalized) cloud_metadata_hosts
    || ends_with_text (codes ".metadata.google.internal") normalized
