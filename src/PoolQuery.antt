-- ===== src/PoolQuery.antt =====
-- shared/src/pool.ts: the query of the public pool, and what is picked and measured of its entries. `Number`
-- of the runtime is a parameter: the whole number that a string stands for, if it stands for one.
pub mod Picking
pub mod Limits
mod Tests
use proxy_pulse_crunchyroll.Prelude.{
  ℕ, ◌+◌, ◌-◌, ◌*◌, min, max, Bool, true, false, not, ◌&&◌, ◌||◌, List, [], ◌∷◌, map, Option, none,
  some, ltb, leb, ◌==◌, if◌then◌else◌, is_some, or_default, length,
}
use proxy_pulse_crunchyroll.Text.{Text, codes, text_eq, trim}
use proxy_pulse_crunchyroll.Types.{ProxyProtocol, http, https, socks4, socks5}

-- A whole number: `n`, or `-n - 1`.
pub data Whole : Type 0 where
  natural negative : ℕ → Whole

pub data ServiceFilter : Type 0 where
  required preferred off : ServiceFilter

pub record PoolQuery : Type 0 where
  pub limit : ℕ
  pub offset : ℕ
  pub protocol : Option Text
  pub min_score : ℕ
  pub max_latency_ms : Option ℕ
  pub country : Option Text
  pub service : ServiceFilter

pub data QueryError : Type 0 where
  invalid_protocol invalid_country invalid_service : QueryError

pub record ParsedPoolQuery : Type 0 where
  pub query : PoolQuery
  pub is_clamped : Bool
  pub error : Option QueryError

-- The bounds are no less than 0.
abbrev pub between : Option Whole → ℕ → ℕ → ℕ → ℕ
between none fallback least most = fallback
between (some (natural n)) fallback least most = min most (max least n)
between (some (negative n)) fallback least most = min most least

abbrev pub is_protocol : Text → Bool
is_protocol s =
    text_eq s (codes "http")
    || text_eq s (codes "https")
    || text_eq s (codes "socks4")
    || text_eq s (codes "socks5")

abbrev is_letter : ℕ → Bool
is_letter c = (leb b'a' c && leb c b'z') || (leb b'A' c && leb c b'Z')

abbrev pub is_country : Text → Bool
is_country (a ∷ b ∷ []) = is_letter a && is_letter b
is_country _ = false

abbrev to_upper : Text → Text
to_upper s = map (λ c. if leb b'a' c && leb c b'z' then c - 32 else c) s

-- A parameter that is there and refused by a test.
abbrev pub is_refused : (Text → Bool) → Option Text → Bool
is_refused test none = false
is_refused test (some s) = not (test s)

-- A parameter that is there and has something in it.
abbrev pub filled : Option Text → Option Text
filled none = none
filled (some []) = none
filled (some (c ∷ s)) = some (c ∷ s)

abbrev pub service_of : Text → Option ServiceFilter
service_of s =
    if text_eq s (codes "required")
    then some required
    else if text_eq s (codes "preferred")
    then some preferred
    else if text_eq s (codes "off")
    then some off
    else none

module _ (number : Text → Option Whole) where
  unfoldable pub clamp_int : Option Text → ℕ → ℕ → ℕ → ℕ
  unfolding trim
  clamp_int none fallback least most = fallback
  clamp_int (some raw) fallback least most =
      if length (trim raw) == 0 then fallback else between (number raw) fallback least most

  abbrev pub failed_query : ℕ → Bool → QueryError → ParsedPoolQuery
  failed_query limit is_clamped error = record {
    query = record {
      limit = limit;
      offset = 0;
      protocol = none;
      min_score = 0;
      max_latency_ms = none;
      country = none;
      service = required;
    };
    is_clamped = is_clamped;
    error = some error;
  }

  -- The rest of the query, with its parameters given by `get`.
  abbrev pub filters_of : (Text → Option Text) → ℕ → Bool → Option ServiceFilter → ParsedPoolQuery
  filters_of get limit is_clamped none = failed_query limit is_clamped invalid_service
  filters_of get limit is_clamped (some service) = record {
    query = record {
      limit = limit;
      offset = clamp_int (get (codes "offset")) 0 0 100000;
      protocol = filled (get (codes "protocol"));
      min_score = clamp_int (get (codes "min_score")) 0 0 100;
      max_latency_ms = elim (filled (get (codes "max_latency_ms"))) [
        | none ↦ none
        | some s ↦ some (clamp_int (some s) 0 0 600000)
      ];
      country = elim (filled (get (codes "country"))) [ none ↦ none | some s ↦ some (to_upper s) ];
      service = service;
    };
    is_clamped = is_clamped;
    error = none;
  }

  abbrev pub checked_query : (Text → Option Text) → ℕ → Bool → ParsedPoolQuery
  checked_query get limit is_clamped =
      if is_refused is_protocol (get (codes "protocol"))
      then failed_query limit is_clamped invalid_protocol
      else if is_refused is_country (filled (get (codes "country")))
      then failed_query limit is_clamped invalid_country
      else filters_of get limit is_clamped
          (service_of (or_default (get (codes "service")) (codes "required")))

  unfoldable pub parse_pool_query : (Text → Option Text) → ParsedPoolQuery
  unfolding clamp_int
  parse_pool_query get =
      let limit = clamp_int (get (codes "limit")) 50 1 5000 in
      if is_some (get (codes "limit")) && ltb 500 limit
      then checked_query get 500 true
      else checked_query get limit false

-- `weights.reduce(…, 0)` of the weights `Math.max(1, entry.score)`.
abbrev pub weight_of {ℓ} : {A : Type ℓ} → (A → ℕ) → A → ℕ
weight_of score entry = max 1 (score entry)

abbrev pub total_weight {ℓ} : {A : Type ℓ} → (A → ℕ) → List A → ℕ
total_weight score [] = 0
total_weight score (entry ∷ entries) = weight_of score entry + total_weight score entries

-- The loop, for what is left of the target in parts of which `parts` are 1; the last entry is for the end.
abbrev pub pick_from {ℓ} : {A : Type ℓ} → (A → ℕ) → ℕ → ℕ → A → List A → A
pick_from score parts target last [] = last
pick_from score parts target last (entry ∷ entries) =
    let next = pick_from score parts (target - weight_of score entry * parts) entry entries in
    if leb target (weight_of score entry * parts) then entry else next

-- `rng()` gives `drawn / parts`, and is multiplied exactly.
unfoldable pub weighted_random_pick {ℓ} : {A : Type ℓ} → (A → ℕ) → ℕ → ℕ → List A → Option A
weighted_random_pick score parts drawn [] = none
weighted_random_pick score parts drawn (entry ∷ entries) =
    some
      (pick_from score parts (drawn * total_weight score (entry ∷ entries)) entry (entry ∷ entries))
