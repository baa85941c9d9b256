-- ===== src/Ip/Inspect/Policy.antt =====
-- What the endpoint policy lets through.
use proxy_pulse_crunchyroll.Prelude.{
  ℕ, ◌≡◌, refl, ◌≢◌, ◌↔◌, ◌⊎◌, inl, inr, true, false, List, [], ◌∷◌, Option, none, some, arith,
  Bool-cases, any,
}
use proxy_pulse_crunchyroll.Text.{Text, text_eq, includes, trim, to_lower}
use proxy_pulse_crunchyroll.Ip.Ipv4.{Ipv4, parse_ipv4}
use proxy_pulse_crunchyroll.Ip.Ipv6.{parse_ipv6}
use proxy_pulse_crunchyroll.Ip.Classify.{AddressClassification, public, cloud_metadata, is_blocked}
use proxy_pulse_crunchyroll.Ip.Inspect.{
  inspect_address, inspect_raw, inspect_other, v4_result, v6_result, AddressVerdict,
  EndpointPolicyOptions, is_proxy_endpoint_allowed, strip_brackets,
}

-- A verdict blocks by its classification.
abbrev pub IsConsistent : AddressVerdict → Type 0
IsConsistent v = v.blocked ≡ is_blocked v.classification

v6_result-IsConsistent : (o : Option (List ℕ)) → IsConsistent (v6_result o)
unfolding is_blocked
v6_result-IsConsistent none = refl
v6_result-IsConsistent (some bytes) = refl

inspect_other-IsConsistent : (raw : Text) → IsConsistent (inspect_other raw)
unfolding inspect_other is_blocked
inspect_other-IsConsistent raw = elim (Bool-cases (includes b':' raw)) [
  | inl colon ↦ rw colon (v6_result-IsConsistent (parse_ipv6 raw))
  | inr plain ↦ rw plain (ground arith)
]

v4_result-IsConsistent : (raw : Text) (o : Option Ipv4) → IsConsistent (v4_result raw o)
v4_result-IsConsistent raw none = inspect_other-IsConsistent raw
v4_result-IsConsistent raw (some q) = refl

inspect_raw-IsConsistent : (raw : Text) → IsConsistent (inspect_raw raw)
unfolding inspect_raw is_blocked
inspect_raw-IsConsistent [] = refl
inspect_raw-IsConsistent (c ∷ s) = v4_result-IsConsistent (c ∷ s) (parse_ipv4 (c ∷ s))

pub inspect_address-IsConsistent : (host : Text) → IsConsistent (inspect_address host)
unfolding inspect_address
inspect_address-IsConsistent host = inspect_raw-IsConsistent (to_lower (strip_brackets (trim host)))

pub not-blocked_iff : (c : AddressClassification) → (is_blocked c ≡ false) ↔ (c ≡ public)
unfolding is_blocked
not-blocked_iff c = ground arith

-- A host is let through exactly when it is on the allow list, or its classification is public, or
-- private addresses are allowed and its classification is not cloud metadata.
pub is_proxy_endpoint_allowed_iff :
    (host : Text) (options : EndpointPolicyOptions)
    → ((is_proxy_endpoint_allowed host options).ok ≡ true) ↔ (
        (any (text_eq (strip_brackets host)) options.allow ≡ true)
        ⊎ ((inspect_address host).classification ≡ public)
        ⊎ ((options.allow_private ≡ true)
            × ((inspect_address host).classification ≢ cloud_metadata)))
unfolding is_proxy_endpoint_allowed
is_proxy_endpoint_allowed_iff host options = ground (
  arith,
  inspect_address-IsConsistent host,
  not-blocked_iff (inspect_address host).classification,
)
