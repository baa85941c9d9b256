-- ===== src/Net/Lookup.antt =====
-- worker/src/net/safe-lookup.ts: safeResolve over a resolver that is a parameter. A call is cut at
-- its awaits: `look_up` runs until the resolver is asked, `pick_record` from its answers on, with the
-- cache that there is by then, since other calls may have ended meanwhile.
pub mod Safety
use proxy_pulse_crunchyroll.Prelude.{
  ℕ, ◌+◌, Bool, not, ◌&&◌, List, [], ◌∷◌, ◌++◌, Option, none, some, ltb, ◌==◌, if◌then◌else◌,
  or_default, length, any,
}
use proxy_pulse_crunchyroll.Text.{Text, text_eq, to_lower}
use proxy_pulse_crunchyroll.Ip.Classify.{AddressClassification, private, cloud_metadata}
use proxy_pulse_crunchyroll.Ip.Inspect.{
  AddressKind, ipv6, Reason, EndpointPolicyOptions, EndpointDecision, inspect_address, is_metadata,
  is_metadata_hostname, is_proxy_endpoint_allowed, strip_brackets,
}
use proxy_pulse_crunchyroll.UrlPolicy.{is_literal}

pub data Family : Type 0 where
  four six : Family

-- `cacheTtlMs` with its default of 60,000; a host whose lookup fails is `none`.
pub record SafeResolveOptions : Type 0 where
  pub allow_private : Bool
  pub cache_ttl_ms : Option ℕ

pub record Answers : Type 0 where
  pub resolve4 : Option (List Text)
  pub resolve6 : Option (List Text)

pub record CacheEntry : Type 0 where
  pub address : Text
  pub family : Family
  pub expires : ℕ

abbrev pub Cache : Type 0
Cache = List (Text × CacheEntry)

-- The reasons of SsrfBlockedError, by what they say.
pub data Blocking : Type 0 where
  metadata_hostname : Blocking
  refused_literal : Reason → AddressClassification → Blocking
  metadata_record : Blocking
  every_record : ℕ → Blocking

pub data Resolution : Type 0 where
  resolved : Text → Family → Resolution
  blocked : Blocking → Resolution
  not_found : Resolution

-- What a call does before it awaits the resolver.
pub data Start : Type 0 where
  answers : Resolution → Start
  asks : Start

unfoldable pub clear_address_cache : Cache
clear_address_cache = []

-- `cache.get(key)`
unfoldable pub cache_get : Text → Cache → Option CacheEntry
cache_get key [] = none
cache_get key ((k, e) ∷ cache) =
    let rest = cache_get key cache in if text_eq k key then some e else rest

-- `cache.set(key, entry)`
unfoldable pub cache_set : Text → CacheEntry → Cache → Cache
cache_set key entry [] = (key, entry) ∷ []
cache_set key entry ((k, e) ∷ cache) =
    let rest = cache_set key entry cache in
    if text_eq k key then (k, entry) ∷ cache else (k, e) ∷ rest

abbrev pub family_of : AddressKind → Family
family_of ipv6 = six
family_of _ = four

abbrev pub endpoint_options : SafeResolveOptions → EndpointPolicyOptions
endpoint_options options = record { allow_private = options.allow_private; allow = [] }

abbrev pub is_allowed : SafeResolveOptions → Text → Bool
is_allowed options address = (is_proxy_endpoint_allowed address (endpoint_options options)).ok

unfoldable pub key_of : SafeResolveOptions → Text → Text
key_of options literal = (if options.allow_private then b'p' else b'x') ∷ b':' ∷ to_lower literal

cached : ℕ → Option CacheEntry → Start
cached now none = asks
cached now (some hit) =
    if ltb now hit.expires then answers (resolved hit.address hit.family) else asks

-- `safeResolve` up to the first await.
unfoldable pub look_up : SafeResolveOptions → Text → ℕ → Cache → Start
unfolding cached
look_up options host now cache =
    let literal = strip_brackets host in
    let direct = is_proxy_endpoint_allowed literal (endpoint_options options) in
    let verdict = inspect_address literal in
    if is_metadata_hostname literal
    then answers (blocked metadata_hostname)
    else if is_literal verdict
    then (if not direct.ok
        then answers (blocked (refused_literal direct.reason verdict.classification))
        else answers (resolved literal (family_of verdict.kind)))
    else cached now (cache_get (key_of options literal) cache)

-- The records of both families; a family whose lookup throws has none.
unfoldable pub records_of : Answers → List Text
records_of given = or_default given.resolve4 [] ++ or_default given.resolve6 []

abbrev pub is_metadata_record : Text → Bool
is_metadata_record address = is_metadata (inspect_address address).classification

-- The loop over the records: the first that is allowed.
unfoldable pub first_allowed : SafeResolveOptions → List Text → Option Text
first_allowed options [] = none
first_allowed options (r ∷ records) =
    let rest = first_allowed options records in if is_allowed options r then some r else rest

abbrev pub ttl_of : SafeResolveOptions → ℕ
ttl_of options = or_default options.cache_ttl_ms 60000

-- The entry for `address`, stored where the time to live is above 0, and the result.
unfoldable pub remember : SafeResolveOptions → Text → ℕ → Text → Cache → Resolution × Cache
remember options literal now address cache =
    let entry : CacheEntry = record {
      address = address;
      family = family_of (inspect_address address).kind;
      expires = now + ttl_of options;
    } in
    (
      resolved entry.address entry.family,
      if ltb 0 (ttl_of options) then cache_set (key_of options literal) entry cache else cache,
    )

use_record : SafeResolveOptions → Text → ℕ → ℕ → Option Text → Cache → Resolution × Cache
unfolding remember
use_record options literal now count none cache = (blocked (every_record count), cache)
use_record options literal now count (some address) cache =
    remember options literal now address cache

-- `safeResolve` from the answers of the resolver on.
unfoldable pub pick_record : SafeResolveOptions → Text → ℕ → Answers → Cache → Resolution × Cache
unfolding use_record records_of first_allowed
pick_record options host now given cache =
    let records = records_of given in
    if length records == 0
    then (not_found, cache)
    else if any is_metadata_record records && not options.allow_private
    then (blocked metadata_record, cache)
    else use_record options (strip_brackets host) now (length records)
        (first_allowed options records) cache

-- Calls of `safeResolve` in the order of their parts, and calls of `clearAddressCache`.
pub data Event : Type 0 where
  starts : SafeResolveOptions → Text → ℕ → Event
  goes_on : SafeResolveOptions → Text → ℕ → Answers → Event
  clears : Event

-- The result of a call that does not await the resolver.
abbrev report :
    SafeResolveOptions
    → Start
    → List (SafeResolveOptions × Resolution)
    → List (SafeResolveOptions × Resolution)
report options (answers result) rest = (options, result) ∷ rest
report options asks rest = rest

-- The results of the calls, each with the options of its call.
unfoldable pub run_events : List Event → Cache → List (SafeResolveOptions × Resolution)
unfolding look_up pick_record clear_address_cache
run_events [] cache = []
run_events (starts options host now ∷ es) cache =
    report options (look_up options host now cache) (run_events es cache)
run_events (goes_on options host now given ∷ es) cache =
    let (result, after) = pick_record options host now given cache in
    (options, result) ∷ run_events es after
run_events (clears ∷ es) cache = run_events es clear_address_cache
