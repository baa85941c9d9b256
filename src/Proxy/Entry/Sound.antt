-- ===== src/Proxy/Entry/Sound.antt =====
-- What holds of an entry that is accepted.
use proxy_pulse_crunchyroll.Prelude.{
  ℕ, ◌≤◌, ◌≡◌, true, false, not, ◌&&◌, ◌||◌, List, [], ◌∷◌, Option, none, some, arith, ltb, leb,
  ◌==◌, if-cases, is_some, or_default, length, all, any,
}
use proxy_pulse_crunchyroll.Text.{Text, trim, is_digit, decimal_from, includes, split, before}
use proxy_pulse_crunchyroll.Robots.{cut}
use proxy_pulse_crunchyroll.Proxy.{
  ambiguous_format, ipv6_requires_brackets, Checked, fine, refused, ◌>>=◌, Scheme,
  looks_like_markup, normalize_host, normalize_port, is_printable, clean_credential, Userinfo,
  split_userinfo,
}
use proxy_pulse_crunchyroll.Proxy.Layout.{
  Layout, spaced, with_account, colon_fields, no_colon, is_country, to_upper, bracketed,
  without_userinfo, looks_like_unbracketed_ipv6, layout_of,
}
use proxy_pulse_crunchyroll.Proxy.Entry.{
  ProtocolSource, ParseOptions, NormalizedProxy, scheme_of, scheme_prefix, require_host,
  require_port, cleaned, credential, account, finish_entry, parse_authority, parse_proxy_entry,
}

-- What holds of a result, if there is one.
abbrev pub Holds {ℓ κ} : {A : Type ℓ} → (A → Type κ) → Checked A → Type κ
Holds P (fine a) = P a
Holds P (refused r) = Unit

bind-Holds {ℓ κ μ ν} :
    {A : Type ℓ} {B : Type κ} (Q : A → Type μ) (P : B → Type ν) (m : Checked A) (f : A → Checked B)
    → Holds Q m
    → ((a : A) → Q a → Holds P (f a))
    → Holds P (m >>= f)
bind-Holds Q P (fine a) f q h = h a q
bind-Holds Q P (refused r) f q h = tt

any-Holds {ℓ} : {A : Type ℓ} (m : Checked A) → Holds (λ a. Unit {0}) m
any-Holds (fine a) = tt
any-Holds (refused r) = tt

abbrev pub IsPort : ℕ → Type 0
IsPort port = (1 ≤ port) × (port ≤ 65535)

-- A name or a password of an account, that is there.
abbrev pub IsCredential : Text → Type 0
IsCredential s =
    (1 ≤ length s)
    × (length s ≤ 128)
    × (all is_printable s ≡ true)
    × (includes b':' s ≡ false)
    × (includes b'@' s ≡ false)

abbrev pub Each {ℓ κ} : {A : Type ℓ} → (A → Type κ) → Option A → Type κ
Each P none = Unit
Each P (some a) = P a

pub record IsSound (p : NormalizedProxy) : Type 0 where
  pub port : IsPort p.port
  pub username : Each IsCredential p.username
  pub password : Each IsCredential p.password
  pub paired : (is_some p.password && not (is_some p.username)) ≡ false

normalize_port-IsPort : (raw : Text) → Each IsPort (normalize_port raw)
unfolding normalize_port
normalize_port-IsPort raw =
    let value = trim raw in
    let port = decimal_from 0 value in
    if-cases (Each IsPort)
      (not (leb 1 (length value) && leb (length value) 5 && all is_digit value)) _ _ (λ bad. tt)
      (λ digits.
        if-cases (Each IsPort) (ltb port 1 || ltb 65535 port) _ _ (λ out. tt)
          (λ within. ground (arith, within)))

clean_credential-IsCredential :
    (decode : Text → Option Text) (raw : Text) → Each IsCredential (clean_credential decode raw)
unfolding clean_credential
clean_credential-IsCredential decode raw =
    let value = or_default (decode raw) raw in
    if-cases (Each IsCredential) (length value == 0 || ltb 128 (length value)) _ _ (λ bad. tt)
      (λ sized.
        if-cases (Each IsCredential) (not (all is_printable value)) _ _ (λ bad. tt)
          (λ printed.
            if-cases (Each IsCredential) (includes b':' value) _ _ (λ bad. tt)
              (λ plain.
                if-cases (Each IsCredential) (includes b'@' value) _ _ (λ bad. tt)
                  (λ local. (
                    ground (arith, sized),
                    ground (arith, sized),
                    ground (arith, printed),
                    plain,
                    local,
                  )))))

-- The port of a layout, if it has one.
abbrev HasPort : Layout → Type 0
HasPort l = Each IsPort l.port

with_account-HasPort :
    (host port user pass : Text) (country : Option Text)
    → Holds HasPort (with_account host port user pass country)
with_account-HasPort host port user pass country =
    if-cases (Holds HasPort) (length user == 0) _ _ (λ nobody. tt)
      (λ somebody. normalize_port-IsPort port)

no_colon-HasPort : (raw : Text) (o : Option Text) → Holds HasPort (no_colon raw o)
no_colon-HasPort raw none = tt
no_colon-HasPort raw (some host) = tt

colon_fields-HasPort : (raw : Text) (parts : List Text) → Holds HasPort (colon_fields raw parts)
unfolding colon_fields
colon_fields-HasPort raw [] = tt
colon_fields-HasPort raw (a ∷ []) = no_colon-HasPort raw (normalize_host a)
colon_fields-HasPort raw (a ∷ b ∷ []) = normalize_port-IsPort b
colon_fields-HasPort raw (a ∷ b ∷ c ∷ []) = tt
colon_fields-HasPort raw (a ∷ b ∷ c ∷ d ∷ []) = with_account-HasPort a b c d none
colon_fields-HasPort raw (a ∷ b ∷ c ∷ d ∷ e ∷ []) =
    if-cases (Holds HasPort) (length c == 0) _ _ (λ nobody. tt)
      (λ somebody.
        if-cases (Holds HasPort) (not (is_country e)) _ _ (λ bad. tt)
          (λ good. with_account-HasPort a b c d (some (to_upper e))))
colon_fields-HasPort raw (a ∷ b ∷ c ∷ d ∷ e ∷ f ∷ ps) =
    if-cases (Holds HasPort) _ (refused ipv6_requires_brackets) (refused ambiguous_format)
      (λ ipv6. tt) (λ other. tt)

without_userinfo-HasPort :
    (raw host_part : Text) (o : Option (Text × Text))
    → Holds HasPort (without_userinfo raw host_part o)
unfolding spaced
without_userinfo-HasPort raw host_part (some (host, rest)) = normalize_port-IsPort _
without_userinfo-HasPort raw host_part none =
    if-cases (Holds HasPort) (includes 32 host_part && not (includes b':' host_part)) _ _
      (λ spaces. normalize_port-IsPort _)
      (λ colons.
        if-cases (Holds HasPort) (looks_like_unbracketed_ipv6 (split b':' host_part)) _ _
          (λ ipv6. tt) (λ other. colon_fields-HasPort raw (split b':' host_part)))

layout_of-HasPort : (raw : Text) (u : Userinfo) → Holds HasPort (layout_of raw u)
unfolding layout_of
layout_of-HasPort raw u =
    if-cases (Holds HasPort) (is_some u.user) _ _
      (λ account.
        if-cases (Holds HasPort) (includes 32 u.host || length (trim u.host) == 0) _ _ (λ bad. tt)
          (λ good. normalize_port-IsPort _))
      (λ nobody. without_userinfo-HasPort raw u.host (bracketed (cut b']' u.host)))

require_port-IsPort :
    (host_part : Text) (o : Option ℕ) → Each IsPort o → Holds IsPort (require_port host_part o)
require_port-IsPort host_part none h = tt
require_port-IsPort host_part (some port) h = h

module _ (decode : Text → Option Text) where
  cleaned-Each : (o : Option Text) → Each IsCredential o → Holds (Each IsCredential) (cleaned o)
  cleaned-Each none h = tt
  cleaned-Each (some value) h = h

  credential-Each : (o : Option Text) → Holds (Each IsCredential) (credential decode o)
  credential-Each none = tt
  credential-Each (some []) = tt
  credential-Each (some (c ∷ s)) =
      cleaned-Each (clean_credential decode (c ∷ s)) (clean_credential-IsCredential decode (c ∷ s))

  abbrev IsAccount : Option Text × Option Text → Type 0
  IsAccount (username, password) =
      Each IsCredential username
      × Each IsCredential password
      × ((is_some password && not (is_some username)) ≡ false)

  account-IsAccount : (user pass : Option Text) → Holds IsAccount (account decode user pass)
  account-IsAccount user pass =
      bind-Holds (Each IsCredential) IsAccount (credential decode user) _ (credential-Each user)
        (λ username u.
          bind-Holds (Each IsCredential) IsAccount (credential decode pass) _ (credential-Each pass)
            (λ password p.
              if-cases (Holds IsAccount) (is_some password && not (is_some username)) _ _
                (λ unpaired. tt) (λ paired. (u, p, paired))))

  abbrev SoundEntry : NormalizedProxy × ProtocolSource → Type 0
  SoundEntry r = IsSound r.0

  finish_entry-Sound :
      (options : ParseOptions) (s : Option Scheme) (host_part : Text) (l : Layout)
      → HasPort l
      → Holds SoundEntry (finish_entry decode options s host_part l)
  finish_entry-Sound options s host_part l h =
      bind-Holds (λ host. Unit {0}) SoundEntry (require_host l.host) _
        (any-Holds (require_host l.host))
        (λ host n.
          bind-Holds IsPort SoundEntry (require_port host_part l.port) _
            (require_port-IsPort host_part l.port h)
            (λ port p.
              bind-Holds IsAccount SoundEntry (account decode l.user l.pass) _
                (account-IsAccount l.user l.pass)
                (λ names a. record { port = p; username = a.0; password = a.1; paired = a.2 })))

  parse_authority-Sound :
      (options : ParseOptions) (raw : Text) (s : Option Scheme × Text)
      → Holds SoundEntry (parse_authority decode options raw s)
  parse_authority-Sound options raw (s, rest) =
      let authority = before b'/' rest in
      let u = split_userinfo authority in
      if-cases (Holds SoundEntry) (includes b'?' authority || includes b'#' authority) _ _
        (λ url. tt)
        (λ plain.
          bind-Holds HasPort SoundEntry (layout_of raw u) _ (layout_of-HasPort raw u)
            (λ l h. finish_entry-Sound options s u.host l h))

  -- Whatever the input, an entry that is accepted has a port from 1 to 65535; its name and password, where it
  -- has them, are of 1 to 128 printable characters without a colon or an at sign; and it has no password
  -- without a name.
  pub parse_proxy_entry-Sound :
      (options : ParseOptions) (input : Text)
      → Holds (λ r. IsSound r.0) (parse_proxy_entry decode options input)
  unfolding parse_proxy_entry
  parse_proxy_entry-Sound options input =
      let raw = trim input in
      if-cases (Holds SoundEntry) (length raw == 0) _ _ (λ h. tt)
        (λ something.
          if-cases (Holds SoundEntry) (ltb 256 (length raw)) _ _ (λ h. tt)
            (λ short.
              if-cases (Holds SoundEntry) (any (λ c. c == 9 || c == 10 || c == 13) raw) _ _
                (λ h. tt)
                (λ line.
                  if-cases (Holds SoundEntry) (looks_like_markup raw) _ _ (λ h. tt)
                    (λ plain.
                      bind-Holds (λ s. Unit {0}) SoundEntry
                        (scheme_of raw (scheme_prefix (cut b':' raw))) _ (any-Holds _)
                        (λ s n. parse_authority-Sound options raw s)))))
