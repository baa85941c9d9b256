-- ===== src/UrlPolicy/Accepting.antt =====
-- Which URLs the policy accepts.
use proxy_pulse_crunchyroll.Prelude.{
  ◌<◌, ◌≤◌, ◌≡◌, refl, sym, ap, subst, ◌≢◌, ◌↔◌, ◌⊎◌, Bool, true, false, not, ◌&&◌, ◌||◌, [],
  Option, none, some, arith, ltb, ◌==◌, if◌then◌else◌, or_default, some-eq, length, any,
}
use proxy_pulse_crunchyroll.Text.{Text, text_eq, trim}
use proxy_pulse_crunchyroll.Ip.Classify.{public, cloud_metadata}
use proxy_pulse_crunchyroll.Ip.Inspect.{AddressVerdict, inspect_address, is_metadata_hostname}
use proxy_pulse_crunchyroll.Ip.Inspect.Policy.{inspect_address-IsConsistent, not-blocked_iff}
use proxy_pulse_crunchyroll.UrlPolicy.{
  Url, Refusal, UrlParser, UrlPolicy, UrlVerdict, accepted, refused, max_url_length,
  default_protocols, is_unprintable, host_of, is_localhost, is_literal, is_refused_address, port_of,
  is_unlisted_port, check_port, check_host, check_url, check_url_policy,
}

-- What the policy asks of the text.
pub record IsWellFormed (policy : UrlPolicy) (value : Text) : Type 0 where
  pub nonempty : 0 < length value
  pub short : length value ≤ or_default policy.max_url_length max_url_length
  pub printable : any is_unprintable value ≡ false

-- What the policy asks of the address, where the host is one.
abbrev pub IsPermitted : UrlPolicy → AddressVerdict → Type 0
IsPermitted policy verdict =
    (is_literal verdict ≡ false)
    ⊎ (verdict.classification ≡ public)
    ⊎ ((policy.allow_private ≡ true) × (verdict.classification ≢ cloud_metadata))

-- What the policy asks of the host and the port.
pub record IsHostAllowed (policy : UrlPolicy) (url : Url) : Type 0 where
  pub not_localhost : is_localhost (host_of url) ≡ false
  pub not_metadata :
      (policy.block_metadata ≡ some false) ⊎ (is_metadata_hostname (host_of url) ≡ false)
  pub address : IsPermitted policy (inspect_address (host_of url))
  pub port : (1 ≤ port_of url) × (port_of url ≤ 65535) × (port_of url ≢ 25)
  pub listed : is_unlisted_port policy.allowed_ports (port_of url) ≡ false

-- What the policy asks of the parts of the URL.
pub record IsAllowed (policy : UrlPolicy) (url : Url) : Type 0 where
  pub protocol :
      any (text_eq url.protocol) (or_default policy.allowed_protocols default_protocols) ≡ true
  pub username : url.username ≡ []
  pub password : url.password ≡ []
  pub hostname : 0 < length url.hostname
  pub host : IsHostAllowed policy url

refused_iff :
    (policy : UrlPolicy) (host : Text)
    → (is_refused_address policy (inspect_address host) ≡ false)
      ↔ IsPermitted policy (inspect_address host)
refused_iff policy host = ground (
  arith,
  inspect_address-IsConsistent host,
  not-blocked_iff (inspect_address host).classification,
)

check_port_iff :
    (policy : UrlPolicy) (url got : Url)
    → (check_port policy url ≡ accepted got) ↔ (
        (url ≡ got)
        × (1 ≤ port_of url)
        × (port_of url ≤ 65535)
        × (port_of url ≢ 25)
        × (is_unlisted_port policy.allowed_ports (port_of url) ≡ false))
unfolding check_port
check_port_iff policy url got = ground arith

metadata_iff :
    (o : Option Bool) (b : Bool)
    → ((or_default o true && b) ≡ false) ↔ ((o ≡ some false) ⊎ (b ≡ false))
metadata_iff none b = ground arith
metadata_iff (some true) b = ground arith
metadata_iff (some false) b = ground arith

-- A test that must fail, and what follows it.
guard_iff :
    (b : Bool) (r : Refusal) (rest : UrlVerdict) (url : Url)
    → ((if b then refused r else rest) ≡ accepted url) ↔ ((b ≡ false) × (rest ≡ accepted url))
guard_iff true r rest url = ground arith
guard_iff false r rest url = ground arith

and_then : {A B C D : Type 0} → A ↔ (B × C) → C ↔ D → A ↔ (B × D)
and_then (f, g) (h, k) = (λ a. ((f a).0, h (f a).1), λ (b, d). g (b, k d))

check_host-address :
    (policy : UrlPolicy) (url got : Url)
    → (check_host policy url ≡ accepted got) ↔ (
        (is_localhost (host_of url) ≡ false)
        × (((or_default policy.block_metadata true && is_metadata_hostname (host_of url)) ≡ false)
            × ((is_refused_address policy (inspect_address (host_of url)) ≡ false)
                × (check_port policy url ≡ accepted got))))
unfolding check_host
check_host-address policy url got = and_then (guard_iff (is_localhost (host_of url)) _ _ got) (
    and_then
      (guard_iff (or_default policy.block_metadata true && is_metadata_hostname (host_of url)) _ _
        got)
      (guard_iff (is_refused_address policy (inspect_address (host_of url))) _ _ got))

check_host_iff :
    (policy : UrlPolicy) (url got : Url)
    → (check_host policy url ≡ accepted got) ↔ ((url ≡ got) × IsHostAllowed policy url)
check_host_iff policy url got = (forth, back)
  where
    forth : check_host policy url ≡ accepted got → (url ≡ got) × IsHostAllowed policy url
    forth e =
        let (l, (m, (a, p))) = (check_host-address policy url got).0 e in
        let (u, lo, hi, smtp, listed) = (check_port_iff policy url got).0 p in
        (
          u,
          record {
            not_localhost = l;
            not_metadata = (metadata_iff policy.block_metadata _).0 m;
            address = (refused_iff policy (host_of url)).0 a;
            port = (lo, hi, smtp);
            listed = listed;
          },
        )

    back : (url ≡ got) × IsHostAllowed policy url → check_host policy url ≡ accepted got
    back (u, h) = (check_host-address policy url got).1 (
      h.not_localhost,
      (
        (metadata_iff policy.block_metadata _).1 h.not_metadata,
        (
          (refused_iff policy (host_of url)).1 h.address,
          (check_port_iff policy url got).1 (u, h.port.0, h.port.1, h.port.2, h.listed),
        ),
      ),
    )

some_credentials_iff :
    (url : Url)
    → ((ltb 0 (length url.username) || ltb 0 (length url.password)) ≡ false)
      ↔ ((url.username ≡ []) × (url.password ≡ []))
some_credentials_iff url = ground arith

check_url-some :
    (policy : UrlPolicy) (url got : Url)
    → (check_url policy (some url) ≡ accepted got) ↔ (
        (not (any (text_eq url.protocol) (or_default policy.allowed_protocols default_protocols))
          ≡ false)
        × (((ltb 0 (length url.username) || ltb 0 (length url.password)) ≡ false)
            × (((length url.hostname == 0) ≡ false) × (check_host policy url ≡ accepted got))))
unfolding check_url
check_url-some policy url got =
    and_then
      (guard_iff
        (not (any (text_eq url.protocol) (or_default policy.allowed_protocols default_protocols))) _
        _ got)
      (and_then (guard_iff (ltb 0 (length url.username) || ltb 0 (length url.password)) _ _ got)
        (guard_iff (length url.hostname == 0) _ _ got))

check_url_iff :
    (policy : UrlPolicy) (parsed : Option Url) (url : Url)
    → (check_url policy parsed ≡ accepted url) ↔ ((parsed ≡ some url) × IsAllowed policy url)
unfolding check_url
check_url_iff policy none url = ground arith
check_url_iff policy (some parsed) url = (forth, back)
  where
    forth :
        check_url policy (some parsed) ≡ accepted url
        → (some parsed ≡ some url) × IsAllowed policy url
    forth e =
        let (p, (c, (n, h))) = (check_url-some policy parsed url).0 e in
        let (u, host) = (check_host_iff policy parsed url).0 h in
        let (user, word) = (some_credentials_iff parsed).0 c in
        (
          ap some u,
          subst (IsAllowed policy) u (record {
            protocol = ground arith;
            username = user;
            password = word;
            hostname = ground arith;
            host = host;
          }),
        )

    back :
        (some parsed ≡ some url) × IsAllowed policy url
        → check_url policy (some parsed) ≡ accepted url
    back (e, h) =
        let u = some-eq e in
        let k = subst (IsAllowed policy) (sym u) h in
        (check_url-some policy parsed url).1 (
          rw k.protocol refl,
          (
            (some_credentials_iff parsed).1 (k.username, k.password),
            (ground arith, (check_host_iff policy parsed url).1 (u, k.host)),
          ),
        )

check_url_policy-checks :
    (parse : UrlParser) (raw : Text) (policy : UrlPolicy) (url : Url)
    → (check_url_policy parse raw policy ≡ accepted url) ↔ (
        ((length (trim raw) == 0) ≡ false)
        × ((ltb (or_default policy.max_url_length max_url_length) (length (trim raw)) ≡ false)
            × ((any is_unprintable (trim raw) ≡ false)
                × (check_url policy (parse (trim raw)) ≡ accepted url))))
unfolding check_url_policy
check_url_policy-checks parse raw policy url =
    and_then (guard_iff (length (trim raw) == 0) _ _ url) (
      and_then
        (guard_iff (ltb (or_default policy.max_url_length max_url_length) (length (trim raw))) _ _
          url)
        (guard_iff (any is_unprintable (trim raw)) _ _ url))

text_iff :
    (policy : UrlPolicy) (value : Text)
    → IsWellFormed policy value ↔ (
        ((length value == 0) ≡ false)
        × ((ltb (or_default policy.max_url_length max_url_length) (length value) ≡ false)
            × (any is_unprintable value ≡ false)))
text_iff policy value = (
  λ h. (ground arith, (ground arith, h.printable)),
  λ (n, (s, p)). record { nonempty = ground arith; short = ground arith; printable = p },
)

-- A text is accepted as a URL exactly when, trimmed, it is not empty, within the length bound and
-- free of white space and control characters, the platform parses it to that URL, and the URL has
-- an allowed protocol, no credentials, a host that is neither a localhost name nor a metadata name
-- (unless those are let through) nor an address outside the address policy, and a listed port from
-- 1 to 65535 other than 25.
pub check_url_policy_iff :
    (parse : UrlParser) (raw : Text) (policy : UrlPolicy) (url : Url)
    → (check_url_policy parse raw policy ≡ accepted url)
      ↔ (IsWellFormed policy (trim raw) × (parse (trim raw) ≡ some url) × IsAllowed policy url)
check_url_policy_iff parse raw policy url = (forth, back)
  where
    forth :
        check_url_policy parse raw policy ≡ accepted url
        → IsWellFormed policy (trim raw) × (parse (trim raw) ≡ some url) × IsAllowed policy url
    forth e =
        let (n, (s, (p, c))) = (check_url_policy-checks parse raw policy url).0 e in
        let (u, h) = (check_url_iff policy (parse (trim raw)) url).0 c in
        ((text_iff policy (trim raw)).1 (n, (s, p)), u, h)

    back :
        IsWellFormed policy (trim raw) × (parse (trim raw) ≡ some url) × IsAllowed policy url
        → check_url_policy parse raw policy ≡ accepted url
    back (w, u, h) =
        let (n, (s, p)) = (text_iff policy (trim raw)).0 w in
        (check_url_policy-checks parse raw policy url).1
          (n, (s, (p, (check_url_iff policy (parse (trim raw)) url).1 (u, h))))
