-- ===== src/Net/Lookup/Safety.antt =====
-- What safeResolve may return.
use proxy_pulse_crunchyroll.Prelude.{
  ℕ, ◌≡◌, refl, sym, subst, ◌≢◌, ◌⊎◌, inl, inr, Bool, true, not, ◌&&◌, List, [], ◌∷◌, Option, none,
  some, arith, ltb, ◌==◌, Bool-cases, if-cases, some-eq, length, any, All,
}
use proxy_pulse_crunchyroll.Text.{Text, text_eq, starts_with}
use proxy_pulse_crunchyroll.Ip.Classify.{public, cloud_metadata}
use proxy_pulse_crunchyroll.UrlPolicy.{is_literal}
use proxy_pulse_crunchyroll.Ip.Inspect.{is_metadata_hostname, inspect_address, strip_brackets}
use proxy_pulse_crunchyroll.Ip.Inspect.Policy.{is_proxy_endpoint_allowed_iff}
use proxy_pulse_crunchyroll.Net.Lookup.{
  SafeResolveOptions, Answers, CacheEntry, Cache, Resolution, resolved, Start, answers, asks,
  endpoint_options, cache_get, cache_set, family_of, is_allowed, key_of, cached, look_up,
  records_of, first_allowed, ttl_of, is_metadata_record, remember, use_record, pick_record, Event,
  starts, goes_on, clears, report, run_events,
}

-- What the address policy lets a socket be opened to, with or without private addresses.
abbrev pub IsReachable : Bool → Text → Type 0
IsReachable private address =
    ((inspect_address address).classification ≡ public)
    ⊎ ((private ≡ true) × ((inspect_address address).classification ≢ cloud_metadata))

-- An address that passes the policy, with its family.
abbrev pub IsSafe : Bool → Resolution → Type 0
IsSafe private (resolved address family) =
    IsReachable private address × (family ≡ family_of (inspect_address address).kind)
IsSafe private _ = Unit

is_allowed-IsReachable :
    (options : SafeResolveOptions) (address : Text)
    → is_allowed options address ≡ true
    → IsReachable options.allow_private address
is_allowed-IsReachable options address h =
    ground (arith, is_proxy_endpoint_allowed_iff address (endpoint_options options))

-- An entry is one that a call with such options may return.
abbrev IsSoundFor : Bool → CacheEntry → Type 0
IsSoundFor private e = IsSafe private (resolved e.address e.family)

abbrev IsSound : Text × CacheEntry → Type 0
IsSound (key, e) = IsSoundFor (starts_with b'p' key) e

starts_with-key_of :
    (options : SafeResolveOptions) (literal : Text)
    → starts_with b'p' (key_of options literal) ≡ options.allow_private
unfolding key_of
starts_with-key_of options literal = ground arith

text_eq-starts_with : (s t : Text) (c : ℕ) → text_eq s t ≡ true → starts_with c s ≡ starts_with c t
text_eq-starts_with [] [] c h = refl
text_eq-starts_with [] (b ∷ t) c h = ground arith
text_eq-starts_with (a ∷ s) [] c h = ground arith
text_eq-starts_with (a ∷ s) (b ∷ t) c h = ground arith

cache_get-IsSound :
    (key : Text) (cache : Cache) (e : CacheEntry)
    → All IsSound cache
    → cache_get key cache ≡ some e
    → IsSound (key, e)
unfolding cache_get
cache_get-IsSound key [] e h g = ground arith
cache_get-IsSound key ((k, d) ∷ cache) e (h, hs) g = elim (Bool-cases (text_eq k key)) [
  | inl same ↦
      let found : some d ≡ some e = rw same at g in
      subst (IsSoundFor (starts_with b'p' key)) (some-eq found)
        (subst (λ private. IsSoundFor private d) (text_eq-starts_with k key b'p' same) h)
  | inr other ↦ cache_get-IsSound key cache e hs (rw other at g)
]

cache_set-IsSound :
    (key : Text) (e : CacheEntry) (cache : Cache)
    → IsSound (key, e)
    → All IsSound cache
    → All IsSound (cache_set key e cache)
unfolding cache_set
cache_set-IsSound key e [] h hs = (h, tt)
cache_set-IsSound key e ((k, d) ∷ cache) h (g, gs) = elim (Bool-cases (text_eq k key)) [
  | inl same ↦
      rw same
        (subst (λ private. IsSoundFor private e) (sym (text_eq-starts_with k key b'p' same)) h, gs)
  | inr other ↦ rw other (g, cache_set-IsSound key e cache h gs)
]

-- What a call may do before it awaits the resolver.
abbrev IsSafeStart : Bool → Start → Type 0
IsSafeStart private (answers result) = IsSafe private result
IsSafeStart private asks = Unit

cached-IsSafeStart :
    (private : Bool) (now : ℕ) (o : Option CacheEntry)
    → ((e : CacheEntry) → o ≡ some e → IsSoundFor private e)
    → IsSafeStart private (cached now o)
unfolding cached
cached-IsSafeStart private now none h = tt
cached-IsSafeStart private now (some e) h = elim (Bool-cases (ltb now e.expires)) [
  | inl fresh ↦ rw fresh (h e refl)
  | inr stale ↦ rw stale tt
]

look_up-IsSafeStart :
    (options : SafeResolveOptions) (host : Text) (now : ℕ) (cache : Cache)
    → All IsSound cache
    → IsSafeStart options.allow_private (look_up options host now cache)
unfolding look_up
look_up-IsSafeStart options host now cache h =
    let P : Start → Type 0 = IsSafeStart options.allow_private in
    if-cases P (is_metadata_hostname (strip_brackets host)) _ _ (λ _. tt)
      λ _.
        if-cases P (is_literal (inspect_address (strip_brackets host))) _ _
          (λ _.
            if-cases P (not (is_allowed options (strip_brackets host))) _ _ (λ _. tt)
              λ allowed.
                (is_allowed-IsReachable options (strip_brackets host) (ground arith), refl))
          (λ _. cached-IsSafeStart options.allow_private now _ λ e found.
            subst (λ private. IsSoundFor private e)
              (starts_with-key_of options (strip_brackets host))
              (cache_get-IsSound (key_of options (strip_brackets host)) cache e h found))

-- The first record that is allowed, if any.
abbrev IsAllowedRecord : SafeResolveOptions → Option Text → Type 0
IsAllowedRecord options none = Unit
IsAllowedRecord options (some address) = is_allowed options address ≡ true

first_allowed-IsAllowedRecord :
    (options : SafeResolveOptions) (records : List Text)
    → IsAllowedRecord options (first_allowed options records)
unfolding first_allowed
first_allowed-IsAllowedRecord options [] = tt
first_allowed-IsAllowedRecord options (r ∷ records) = elim (Bool-cases (is_allowed options r)) [
  | inl good ↦ rw good good
  | inr bad ↦ rw bad (first_allowed-IsAllowedRecord options records)
]

-- A result and the cache behind it.
abbrev IsSafeResult : Bool → Resolution × Cache → Type 0
IsSafeResult private (result, cache) = IsSafe private result × All IsSound cache

remember-IsSafeResult :
    (options : SafeResolveOptions) (literal : Text) (now : ℕ) (address : Text) (cache : Cache)
    → is_allowed options address ≡ true
    → All IsSound cache
    → IsSafeResult options.allow_private (remember options literal now address cache)
unfolding remember
remember-IsSafeResult options literal now address cache a h =
    let entry : IsSafe options.allow_private
        (resolved address (family_of (inspect_address address).kind)) =
      (is_allowed-IsReachable options address a, refl) in
    (
      entry,
      if-cases (All IsSound) (ltb 0 (ttl_of options)) _ _
          (λ _.
            cache_set-IsSound (key_of options literal) _ cache
              (subst
                (λ private.
                  IsSafe private (resolved address (family_of (inspect_address address).kind)))
                (sym (starts_with-key_of options literal)) entry)
              h)
          (λ _. h),
    )

use_record-IsSafeResult :
    (options : SafeResolveOptions) (literal : Text) (now count : ℕ) (o : Option Text)
    (cache : Cache)
    → IsAllowedRecord options o
    → All IsSound cache
    → IsSafeResult options.allow_private (use_record options literal now count o cache)
unfolding use_record
use_record-IsSafeResult options literal now count none cache a h = (tt, h)
use_record-IsSafeResult options literal now count (some address) cache a h =
    remember-IsSafeResult options literal now address cache a h

pick_record-IsSafeResult :
    (options : SafeResolveOptions) (host : Text) (now : ℕ) (given : Answers) (cache : Cache)
    → All IsSound cache
    → IsSafeResult options.allow_private (pick_record options host now given cache)
unfolding pick_record
pick_record-IsSafeResult options host now given cache h =
    let P : Resolution × Cache → Type 0 = IsSafeResult options.allow_private in
    if-cases P (length (records_of given) == 0) _ _ (λ _. (tt, h))
      λ _.
        if-cases P (any is_metadata_record (records_of given) && not options.allow_private) _ _
          (λ _. (tt, h))
          λ _.
            use_record-IsSafeResult options (strip_brackets host) now (length (records_of given)) _
              cache (first_allowed-IsAllowedRecord options (records_of given)) h

-- A call and its result.
unfoldable pub IsSafeCall : SafeResolveOptions × Resolution → Type 0
IsSafeCall (options, result) = IsSafe options.allow_private result

report-IsSafeCall :
    (options : SafeResolveOptions) (start : Start) (rest : List (SafeResolveOptions × Resolution))
    → IsSafeStart options.allow_private start
    → All IsSafeCall rest
    → All IsSafeCall (report options start rest)
unfolding IsSafeCall
report-IsSafeCall options (answers result) rest safe h = (safe, h)
report-IsSafeCall options asks rest safe h = h

run_events_sound :
    (es : List Event) (cache : Cache) → All IsSound cache → All IsSafeCall (run_events es cache)
unfolding run_events IsSafeCall
run_events_sound [] cache h = tt
run_events_sound (starts options host now ∷ es) cache h =
    report-IsSafeCall options (look_up options host now cache) _
      (look_up-IsSafeStart options host now cache h) (run_events_sound es cache h)
run_events_sound (goes_on options host now given ∷ es) cache h =
    let (safe, sound) = pick_record-IsSafeResult options host now given cache h in
    (safe, run_events_sound es _ sound)
run_events_sound (clears ∷ es) cache h = run_events_sound es [] tt

-- Whatever calls of `safeResolve` there are, with whatever options, hosts and answers of the
-- resolver, and however their parts and `clearAddressCache` follow one another from an empty cache
-- on: an address that a call returns, from the cache or not, is classified as public, or is no cloud
-- metadata address and the options of that call allow private addresses; and its family is the one
-- of the address.
pub run_events-IsSafe : (es : List Event) → All IsSafeCall (run_events es [])
run_events-IsSafe es = run_events_sound es [] tt
